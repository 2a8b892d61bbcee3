-- ===== src/Push.antt =====
-- Push messages: parts of notification_event_parser.py and notification_fcm_guard.py.
pub mod Wire
