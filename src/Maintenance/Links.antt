-- ===== src/Maintenance/Links.antt =====
-- Attaching and detaching monitors (app/core/services/maintenance_service.py).
use ghostmon.Base.{
  ℕ, ◌≡◌, refl, Bool, ◌&&◌, ◌||◌, not, List, [], ◌∷◌, ◌++◌, arith, ◌==◌, find, filterb, is_some,
  Bool-cases, inl, inr,
}
use ghostmon.Model.Maintenance.{MaintenanceLink}
use ghostmon.Maintenance.{attach_monitor, detach_monitor}

abbrev pub is_link : ℕ → ℕ → MaintenanceLink → Bool
is_link maintenance_id monitor_id l =
    l.maintenance_id == maintenance_id && l.monitor_id == monitor_id

-- whether a monitor is attached to a window
abbrev pub is_attached : ℕ → ℕ → List MaintenanceLink → Bool
is_attached maintenance_id monitor_id links =
    is_some (find (is_link maintenance_id monitor_id) links)

attached-append :
    (w m a b : ℕ) (links : List MaintenanceLink)
    → is_attached w m (links ++ record { maintenance_id = a; monitor_id = b } ∷ [])
      ≡ (is_attached w m links || (a == w && b == m))
attached-append w m a b [] = ground arith
attached-append w m a b (l ∷ ls) = ground (arith, attached-append w m a b ls)

attached-filterb :
    (w m a b : ℕ) (links : List MaintenanceLink)
    → is_attached w m (filterb (λ l. not (is_link a b l)) links)
      ≡ (is_attached w m links && not (a == w && b == m))
attached-filterb w m a b [] = refl
attached-filterb w m a b (l ∷ ls) = ground (arith, attached-filterb w m a b ls)

-- After `attach_monitor` exactly the attachments from before and the new one stand, whether or not it
-- stood already; after `detach_monitor` exactly those from before without the one taken off.
pub attach-detach :
    (a b w m : ℕ) (links : List MaintenanceLink)
    → (is_attached w m (attach_monitor a b links) ≡ (is_attached w m links || (a == w && b == m)))
      × (is_attached w m (detach_monitor a b links)
          ≡ (is_attached w m links && not (a == w && b == m)))
unfolding attach_monitor detach_monitor
attach-detach a b w m links = (
  elim (Bool-cases (is_attached a b links)) [
    | inl old ↦ rw old (ground arith)
    | inr new ↦ rw new (attached-append w m a b links)
  ],
  attached-filterb w m a b links,
)
