-- ===== src/Mesh.antt =====
-- desktop/hammurabi-handoff/src/mesh.rs: the message feed. The live broadcast channel belongs to tokio
-- and keeps no state of the bus; the clock's text is an argument.
pub mod Window
pub mod Race
use hammurabi_handoff.Prelude.{
  ℕ, ◌+◌, ◌-◌, ◌%◌, ◌^◌, String, Bool, List, [], ◌∷◌, ◌++◌, map, length, drop, ltb, show_ℕ, ◌<>◌,
  if◌then◌else◌,
}
use hammurabi_handoff.Json.{Value, string, object, array, natural, fields, items}

abbrev pub ops_channel : String
ops_channel = "#handoff-ops"

abbrev pub max_log_len : ℕ
max_log_len = 2000

pub data MeshEventKind : Type 0 where
  intent restriction payment credential settlement info : MeshEventKind

pub record MeshMessage : Type 0 where
  pub seq : ℕ
  pub channel : String
  pub sender : String
  pub kind : MeshEventKind
  pub body : String
  pub stamp : String

pub record MeshBus : Type 0 where
  pub seq : ℕ
  pub log : List MeshMessage

abbrev pub new : MeshBus
new = record { seq = 0; log = [] }

-- `self.seq.fetch_add(1, SeqCst)`: the number handed out is the old one; a `u64` wraps around.
unfoldable pub fetch_seq : MeshBus → MeshBus × ℕ
fetch_seq bus = (record bus { seq = (bus.seq + 1) % 2 ^ 64 }, bus.seq)

-- The block under the write lock: push, then drain what is over the cap.
unfoldable pub append_line : MeshBus → MeshMessage → MeshBus
append_line bus msg =
    let log = bus.log ++ msg ∷ [] in
    record bus {
      log = if ltb max_log_len (length log) then drop (length log - max_log_len) log else log;
    }

-- `post`, run by one thread with no other in between. `stamp n` is the clock's text at post `n`.
unfoldable pub post :
    (ℕ → String) → MeshBus → String → MeshEventKind → String → MeshBus × MeshMessage
unfolding fetch_seq append_line
post stamp bus sender kind body =
    let (bus', seq) = fetch_seq bus in
    let msg : MeshMessage = record {
      seq = seq;
      channel = ops_channel;
      sender = sender;
      kind = kind;
      body = body;
      stamp = stamp seq;
    } in
    (append_line bus' msg, msg)

unfoldable pub feed : MeshBus → List MeshMessage
feed bus = bus.log

-- `{:>4}`: spaces up to a width of four.
pad : ℕ → String
pad n = if ltb n 10 then "   " else if ltb n 100 then "  " else if ltb n 1000 then " " else ""

unfoldable pub render : MeshMessage → String
unfolding pad
render msg =
    "[" <> (pad msg.seq <> (show_ℕ msg.seq <> ("] <" <> (msg.sender <> ("> " <> msg.body)))))

-- `.join("\n")`.
join_lines : List String → String
join_lines [] = ""
join_lines (s ∷ []) = s
join_lines (s ∷ t ∷ r) = s <> ("\n" <> join_lines (t ∷ r))

unfoldable pub transcript : MeshBus → String
unfolding join_lines feed
transcript bus = join_lines (map render (feed bus))

abbrev kind_text : MeshEventKind → String
kind_text intent = "intent"
kind_text restriction = "restriction"
kind_text payment = "payment"
kind_text credential = "credential"
kind_text settlement = "settlement"
kind_text info = "info"

-- The derived `Serialize` of a message, and of the feed.
unfoldable pub message_value : MeshMessage → Value
message_value msg = object (
    fields (
      ("seq", natural msg.seq)
      ∷ ("channel", string msg.channel)
      ∷ ("sender", string msg.sender)
      ∷ ("kind", string (kind_text msg.kind))
      ∷ ("body", string msg.body)
      ∷ ("at", string msg.stamp)
      ∷ []))

unfoldable pub feed_value : List MeshMessage → Value
unfolding message_value
feed_value msgs = array (items (map message_value msgs))
