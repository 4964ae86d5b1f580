-- ===== src/Notifications.antt =====
-- app/tasks/notifications: the events that are alerted, and the channels that they go to.
pub mod Events
pub mod Dispatch
pub mod Delivery
