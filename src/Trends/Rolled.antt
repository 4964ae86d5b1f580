-- ===== src/Trends/Rolled.antt =====
-- The trend of each item and hour, and `rollup_trends` of app/tasks/trends.py.
use ghostmon.Base.{
  ℕ, ◌<◌, ◌≡◌, refl, sym, true, false, Option, some, List, [], ◌∷◌, leb, ==→eq, if◌then◌else◌,
  filterb, find, arith, Bool-cases, Option-cases, inl, inr, ap, ◌∙◌, subst, or_else, some_inj,
}
use ghostmon.Model.Host.{MetricValue}
use ghostmon.Trends.{
  MetricTrend, Rollup, Key, key_eq, has_key, trend_key, sample_key, in_window, group_column,
  group_keys, upsert, trend_row, upsert_row, upsert_groups, rollup_trends,
}

-- the trend of an item and a bucket
abbrev pub trend_of : {F : Type 0} → Key → List (MetricTrend F) → Option (MetricTrend F)
trend_of k trends = find (λ t. key_eq (trend_key t) k) trends

module _ {F : Type 0} where
  upsert-own :
      (t : MetricTrend F) (ts : List (MetricTrend F))
      → trend_of (trend_key t) (upsert t ts) ≡ some t
  unfolding upsert
  upsert-own t [] = ground arith
  upsert-own t (u ∷ us) = ground (arith, upsert-own t us)

  upsert-other :
      (t : MetricTrend F) (k : Key) (ts : List (MetricTrend F))
      → key_eq (trend_key t) k ≡ false
      → trend_of k (upsert t ts) ≡ trend_of k ts
  unfolding upsert
  upsert-other t k [] other = ground (arith, other)
  upsert-other t k (u ∷ us) other = ground (arith, other, upsert-other t k us other)

key_eq-path : (j k : Key) → key_eq j k ≡ true → j ≡ k
key_eq-path (i, b) (j, c) h =
    let first : i ≡ j = ==→eq i j (ground arith) in
    let second : b ≡ c = ==→eq b c (ground arith) in rw (first, second) refl

key_eq_refl : (k : Key) → key_eq k k ≡ true
key_eq_refl (i, b) = ground arith

module _ {F : Type 0} where
  sample_key-has_key :
      (v : MetricValue F) (vs : List (MetricValue F))
      → has_key (sample_key v) (group_keys (v ∷ vs)) ≡ true
  unfolding group_keys
  sample_key-has_key v vs = elim (Bool-cases (has_key (sample_key v) (group_keys vs))) [
    | inl e ↦ rw (e, e) refl
    | inr e ↦ rw (e, key_eq_refl (sample_key v)) refl
  ]

  group_keys-cons :
      (k : Key) (v : MetricValue F) (vs : List (MetricValue F))
      → has_key k (group_keys (v ∷ vs)) ≡ false
      → has_key k (group_keys vs) ≡ false
  unfolding group_keys
  group_keys-cons k v vs h = ground (arith, h)

  -- an item and hour that is no group has no number
  absent-column :
      (k : Key) (vs : List (MetricValue F))
      → has_key k (group_keys vs) ≡ false
      → group_column k vs ≡ []
  unfolding group_column
  absent-column k [] h = refl
  absent-column k (v ∷ vs) h = elim (Bool-cases (key_eq (sample_key v) k)) [
    | inr other ↦ ground (arith, other, absent-column k vs (group_keys-cons k v vs h))
    | inl mine ↦ cc (
      h,
      subst (λ z. has_key z (group_keys (v ∷ vs)) ≡ true) (key_eq-path (sample_key v) k mine)
          (sample_key-has_key v vs),
    )
  ]

module _ {F : Type 0} (db : Rollup F) (values : List (MetricValue F)) where
  -- the row that a rollup of `values` makes for an item and an hour
  abbrev row_of : Key → Option (MetricTrend F)
  row_of k = trend_row db k (group_column k values)

  trend_key-row :
      (k : Key) (xs : List F) (t : MetricTrend F) → trend_row db k xs ≡ some t → trend_key t ≡ k
  unfolding trend_row
  trend_key-row k [] t h = cc
  trend_key-row (i, b) (x ∷ xs) t h = ap trend_key (sym (some_inj h))

  upsert_row-own :
      (k : Key) (trends : List (MetricTrend F))
      → trend_of k (upsert_row db (row_of k) trends) ≡ or_else (row_of k) (trend_of k trends)
  upsert_row-own k trends = elim (Option-cases (row_of k)) [
    | inl e ↦ rw e refl
    | inr (t, e) ↦ rw e (
        subst (λ z. trend_of z (upsert t trends) ≡ some t)
          (trend_key-row k (group_column k values) t e) (upsert-own t trends))
  ]

  upsert_row-other :
      (j k : Key) (trends : List (MetricTrend F))
      → key_eq j k ≡ false
      → trend_of k (upsert_row db (row_of j) trends) ≡ trend_of k trends
  upsert_row-other j k trends other = elim (Option-cases (row_of j)) [
    | inl e ↦ rw e refl
    | inr (t, e) ↦ rw e (
        upsert-other t k trends (
          subst (λ z. key_eq z k ≡ false) (sym (trend_key-row j (group_column j values) t e))
            other))
  ]

  or_else_same :
      (k : Key) (trends : List (MetricTrend F))
      → or_else (row_of k) (or_else (row_of k) (trend_of k trends))
        ≡ or_else (row_of k) (trend_of k trends)
  or_else_same k trends = elim (Option-cases (row_of k)) [
    | inl e ↦ rw e refl
    | inr (t, e) ↦ rw e refl
  ]

  groups-trend_of :
      (k : Key) (ks : List Key) (trends : List (MetricTrend F))
      → trend_of k (upsert_groups db ks values trends)
        ≡ (if has_key k ks then or_else (row_of k) (trend_of k trends) else trend_of k trends)
  unfolding upsert_groups
  groups-trend_of k [] trends = refl
  groups-trend_of k (j ∷ js) trends =
      let rest = groups-trend_of k js (upsert_row db (row_of j) trends) in
      elim (Bool-cases (key_eq j k)) [
        | inr other ↦
            let flip : key_eq k j ≡ false = ground (arith, other) in
            rest ∙ rw (upsert_row-other j k trends other, flip) refl
        | inl mine ↦
            let same = key_eq-path j k mine in
            let own : trend_of k (upsert_row db (row_of j) trends)
                ≡ or_else (row_of k) (trend_of k trends) =
              subst
                (λ z.
                  trend_of k (upsert_row db (row_of z) trends)
                  ≡ or_else (row_of k) (trend_of k trends))
                (sym same) (upsert_row-own k trends) in
            let flip : key_eq k j ≡ true = ground (arith, mine) in
            rest
            ∙ rw (own, flip)
                (elim (Bool-cases (has_key k js)) [
                  | inl again ↦ rw again (or_else_same k trends)
                  | inr once ↦ rw once refl
                ])
      ]

module _ {F : Type 0} (db : Rollup F) where
  -- After a rollup with a positive lookback, the trend of every item and hour is made of the numbers
  -- that the item has in that hour within the window, however many there are, and is the trend from
  -- before where it has none: late samples are counted in, and nothing else is overwritten.
  pub rollup_trends-trend_of :
      (now lookback : ℕ) (values : List (MetricValue F)) (trends : List (MetricTrend F)) (k : Key)
      → 0 < lookback
      → trend_of k (rollup_trends db now lookback values trends)
        ≡ or_else
            (trend_row db k (group_column k (filterb (in_window now lookback) values)))
            (trend_of k trends)
  unfolding rollup_trends
  rollup_trends-trend_of now lookback values trends k positive =
      let source = filterb (in_window now lookback) values in
      let some_lookback : leb lookback 0 ≡ false = ground arith in
      rw some_lookback (
        groups-trend_of db source k (group_keys source) trends
        ∙ elim (Bool-cases (has_key k (group_keys source))) [
          | inl present ↦ rw present refl
          | inr absent ↦ rw (absent, absent-column k source absent, trend_row) refl
        ])

  rollup_trends-none :
      (now lookback : ℕ) (values : List (MetricValue F)) (trends : List (MetricTrend F))
      → leb lookback 0 ≡ true
      → rollup_trends db now lookback values trends ≡ trends
  unfolding rollup_trends
  rollup_trends-none now lookback values trends e = rw e refl

  -- A second rollup of the same window over the same samples leaves the trend of every item and hour as
  -- the first left it.
  pub rollup_trends_again :
      (now lookback : ℕ) (values : List (MetricValue F)) (trends : List (MetricTrend F)) (k : Key)
      → trend_of k
          (rollup_trends db now lookback values (rollup_trends db now lookback values trends))
        ≡ trend_of k (rollup_trends db now lookback values trends)
  rollup_trends_again now lookback values trends k =
      let first = rollup_trends db now lookback values trends in
      elim (Bool-cases (leb lookback 0)) [
        | inl off ↦ ap (trend_of k) (rollup_trends-none now lookback values first off)
        | inr on ↦
            let positive : 0 < lookback = ground (arith, on) in
            let once = rollup_trends-trend_of now lookback values trends k positive in
            let source = filterb (in_window now lookback) values in
            rollup_trends-trend_of now lookback values first k positive
            ∙ ap (or_else (trend_row db k (group_column k source))) once
            ∙ or_else_same db source k trends
            ∙ sym once
      ]
