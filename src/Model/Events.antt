-- ===== src/Model/Events.antt =====
-- model/model.go and helper/max/max.go: job events, and the queries on a job's list of events.
-- Go's string-typed constants are data types; an event ID is a natural number.
pub mod Latest
pub mod Appended
use transcoderd.Prelude.{
  ℕ, zero, suc, ◌+◌, Bool, true, false, ◌&&◌, ◌||◌, Option, none, some, List, [], ◌∷◌, ◌++◌, String,
  ◌==◌, ltb, if◌then◌else◌,
}

pub data NotificationType : Type 0 where
  job download upload mkv_extract pgs ffmpegs job_verify : NotificationType

pub data NotificationStatus : Type 0 where
  queued assigned started completed canceled failed : NotificationStatus

-- Which of the string constants a value is, to compare two of them.
abbrev pub type_code : NotificationType → ℕ
type_code job = 0
type_code download = 1
type_code upload = 2
type_code mkv_extract = 3
type_code pgs = 4
type_code ffmpegs = 5
type_code job_verify = 6

abbrev pub status_code : NotificationStatus → ℕ
status_code queued = 0
status_code assigned = 1
status_code started = 2
status_code completed = 3
status_code canceled = 4
status_code failed = 5

abbrev pub same_type : NotificationType → NotificationType → Bool
same_type s t = type_code s == type_code t

abbrev pub same_status : NotificationStatus → NotificationStatus → Bool
same_status s t = status_code s == status_code t

pub record TaskEvent : Type 0 where
  pub job_id : ℕ
  pub event_id : ℕ
  pub worker_name : String
  pub event_time : ℕ
  pub notification_type : NotificationType
  pub status : NotificationStatus
  pub message : String

unfoldable pub is_assigned : TaskEvent → Bool
is_assigned e =
    same_type e.notification_type job
    && (same_status e.status assigned || same_status e.status started)

unfoldable pub is_completed : TaskEvent → Bool
is_completed e = same_type e.notification_type job && same_status e.status completed

-- `sort.Sort` by `Less`: ascending event IDs.
unfoldable pub insert_by_id : TaskEvent → List TaskEvent → List TaskEvent
insert_by_id e [] = e ∷ []
insert_by_id e (x ∷ xs) =
    let rest = insert_by_id e xs in if ltb x.event_id e.event_id then x ∷ rest else e ∷ x ∷ xs

unfoldable pub sort_events : List TaskEvent → List TaskEvent
sort_events [] = []
sort_events (e ∷ es) = insert_by_id e (sort_events es)

unfoldable pub get_last_element : List TaskEvent → Option TaskEvent
get_last_element [] = none
get_last_element (e ∷ []) = some e
get_last_element (e ∷ x ∷ xs) = get_last_element (x ∷ xs)

-- `max.Max`, behind the test for an empty list.
unfoldable pub get_latest : List TaskEvent → Option TaskEvent
unfolding insert_by_id sort_events get_last_element
get_latest es = get_last_element (sort_events es)

-- The loop variable `eventID`, which starts at -1.
abbrev pub beats : Option TaskEvent → TaskEvent → Bool
beats none e = true
beats (some b) e = ltb b.event_id e.event_id

unfoldable pub latest_loop : Option TaskEvent → NotificationType → List TaskEvent → Option TaskEvent
latest_loop best t [] = best
latest_loop best t (e ∷ es) =
    latest_loop (if same_type e.notification_type t && beats best e then some e else best) t es

unfoldable pub get_latest_per_notification_type :
    List TaskEvent → NotificationType → Option TaskEvent
unfolding latest_loop
get_latest_per_notification_type es t = latest_loop none t es

-- `none` is the nil pointer that `GetStatus` would dereference.
unfoldable pub get_status : List TaskEvent → Option NotificationStatus
unfolding get_latest_per_notification_type
get_status es = elim (get_latest_per_notification_type es job) [
  | none ↦ none
  | some e ↦ some e.status
]

unfoldable pub get_by_event_id : List TaskEvent → ℕ → Option TaskEvent
get_by_event_id [] i = none
get_by_event_id (e ∷ es) i =
    let rest = get_by_event_id es i in if e.event_id == i then some e else rest

unfoldable pub filter_by : List TaskEvent → NotificationType → NotificationStatus → List TaskEvent
filter_by [] t s = []
filter_by (e ∷ es) t s =
    let rest = filter_by es t s in
    if same_type e.notification_type t && same_status e.status s then e ∷ rest else rest

-- A probe is carried as the JSON text that the repository stores.
pub record Job : Type 0 where
  pub id : ℕ
  pub source_path : String
  pub target_path : String
  pub source_size : ℕ
  pub target_size : ℕ
  pub source_probe : Option String
  pub target_probe : Option String
  pub events : List TaskEvent
  pub status_message : String

abbrev pub next_event_id : Option TaskEvent → ℕ
next_event_id none = 0
next_event_id (some e) = e.event_id + 1

-- The event that `AddEventComplete` makes at time `now`.
unfoldable pub new_event : Job → ℕ → NotificationType → NotificationStatus → String → TaskEvent
unfolding get_latest
new_event v now t s message = record {
  job_id = v.id;
  event_id = next_event_id (get_latest v.events);
  worker_name = "";
  event_time = now;
  notification_type = t;
  status = s;
  message = message;
}

-- `GetLatest` has sorted the list in place before the event is appended.
unfoldable pub add_event_complete :
    Job → ℕ → NotificationType → NotificationStatus → String → Job × TaskEvent
unfolding new_event
add_event_complete v now t s message =
    let e = new_event v now t s message in
    (record v { events = sort_events v.events ++ (e ∷ []) }, e)

unfoldable pub add_event : Job → ℕ → NotificationType → NotificationStatus → Job × TaskEvent
unfolding add_event_complete
add_event v now t s = add_event_complete v now t s ""
