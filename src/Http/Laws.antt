-- ===== src/Http/Laws.antt =====
-- What the handlers answer on every request (internal/hapi/handlers).
use go_template_aerospike.Prelude.{
  ℕ, ◌^◌, ◌<◌, ℤ, negsuc, Bytes, text, eq_bytes, eq_bytes_iff, true, false, Option, none, List, [],
  ◌≡◌, ◌≢◌, ◌↔◌, refl, ap, ◌∙◌, arith, Parsed, parse_int, atoi, show_int, parse_int-show_int,
  IsInt32, IsInt64, to_int32, to_int32_id, lookup, value, panic, and_then, Bool-cases, Option-cases,
  inl, inr,
}
use go_template_aerospike.Aerospike.{QueryItem, recordset}
use go_template_aerospike.History.{Collected, Reader, find_by_track_id, history_statement}
use go_template_aerospike.History.Reading.{find_by_track_id_negative}
use go_template_aerospike.Service.{Service}
use go_template_aerospike.Tracks.{find_track_by_id, flatten}
use go_template_aerospike.Server.{Server, ready}
use go_template_aerospike.Http.{
  Reply, json, json_error, find_by_id_handler, num_of_history, history_reply,
  find_by_track_id_handler, probe_readiness, get_ready_handler, Exchange, or_dash, or_dash_zero,
  origin_or_referer, labels,
}

-- `GET /tracks/:id` with the decimal text of an int32 answers 200 with the track that the map holds for
-- it, or null, and with a text that `ParseInt` refuses at 32 bits it answers 400.
pub find_by_id_handler_lem :
    {Db : Type 0} (s : Service Db) (id : ℤ) (id_str : Bytes)
    → IsInt32 id
    → (parse_int (2 ^ 31) id_str).failed ≡ true
    → (find_by_id_handler (show_int id) s
        ≡ json 200
            (record { code = text "0"; payload = flatten (lookup id s.track_map); message = [] }))
      × (find_by_id_handler id_str s ≡ json_error 400 (text " invalid id"))
unfolding find_by_id_handler find_track_by_id
find_by_id_handler_lem s id id_str h k =
    (rw (parse_int-show_int (2 ^ 31) id h) (rw (to_int32_id id h) refl), rw k refl)

show_int-ne-nil : (x : ℤ) → IsInt64 x → show_int x ≢ []
show_int-ne-nil x h e =
    let back = parse_int-show_int (2 ^ 63) x h in
    let failed : (parse_int (2 ^ 63) []).failed ≡ true = unfold parse_int in refl in
    ground (arith, ap Parsed.failed (rw e at back), failed)

handler-prints :
    {Db : Type 0} (r : Reader Db) (track_id n : ℤ) (db : Db)
    → IsInt64 track_id
    → IsInt64 n
    → find_by_track_id_handler r (show_int track_id) (show_int n) db
      ≡ and_then (find_by_track_id r track_id n db) λ c. value (history_reply c)
unfolding find_by_track_id_handler num_of_history atoi
handler-prints r track_id n db h k =
    let some_id : eq_bytes (show_int track_id) [] ≡ false =
      ground (arith, eq_bytes_iff (show_int track_id) [], show_int-ne-nil track_id h) in
    let some_size : eq_bytes (show_int n) [] ≡ false =
      ground (arith, eq_bytes_iff (show_int n) [], show_int-ne-nil n k) in
    rw some_id (
      rw some_size
        (rw (parse_int-show_int (2 ^ 63) track_id h) (rw (parse_int-show_int (2 ^ 63) n k) refl)))

-- `GET /track-histories` with the decimal texts of a track's number and of a size answers what
-- `FindByTrackId` finds for these numbers: 200 with the items and their count, or 404 with its error.
pub find_by_track_id_handler_lem :
    {Db : Type 0} (r : Reader Db) (track_id n : ℤ) (db : Db) (c : Collected)
    → IsInt64 track_id
    → IsInt64 n
    → find_by_track_id r track_id n db ≡ value c
    → find_by_track_id_handler r (show_int track_id) (show_int n) db ≡ value (history_reply c)
find_by_track_id_handler_lem r track_id n db c h k e =
    handler-prints r track_id n db h k ∙ rw e refl

-- A negative size in the request makes the handler panic whenever the query of the database succeeds.
pub find_by_track_id_handler_panics :
    {Db : Type 0} (r : Reader Db) (track_id : ℤ) (n : ℕ) (db : Db) (items : List QueryItem)
    → IsInt64 track_id
    → n < 2 ^ 63
    → r.client.query (history_statement r.namespace (to_int32 track_id) true) db ≡ recordset items
    → find_by_track_id_handler r (show_int track_id) (show_int (negsuc n)) db ≡ panic
find_by_track_id_handler_panics r track_id n db items h k e =
    handler-prints r track_id (negsuc n) db h k
    ∙ rw (find_by_track_id_negative r track_id n db items e) refl

-- The service is ready exactly when its router and service are set up and the first node of the
-- cluster answers.
pub get_ready_handler-200 :
    {T : Type 0} (s : Server T) (nodes : List (Bytes → Option Bytes))
    → (get_ready_handler s nodes ≡ Reply.string 200 (text "Ready."))
      ↔ ((ready s ≡ true) × (probe_readiness nodes ≡ none))
unfolding get_ready_handler
get_ready_handler-200 s nodes = elim (Bool-cases (ready s)) [
  | inl up ↦ rw up (elim (Option-cases (probe_readiness nodes)) [
    | inl answers ↦ rw answers ((λ z. (refl, refl)), (λ z. refl))
    | inr (e, fails) ↦ rw fails (ground arith)
  ])
  | inr down ↦ rw down (ground arith)
]

or_dash-ne-nil : (s : Bytes) → or_dash s ≢ []
unfolding or_dash
or_dash-ne-nil s e = ground (arith, eq_bytes_iff s [])

or_dash_zero-ne-nil : (s : Bytes) → (or_dash_zero s ≢ []) × (or_dash_zero s ≢ text "0")
unfolding or_dash_zero
or_dash_zero-ne-nil s = ground (arith, eq_bytes_iff s [], eq_bytes_iff s (text "0"))

origin_or_referer-ne-nil : (origin referer : Bytes) → origin_or_referer origin referer ≢ []
unfolding origin_or_referer
origin_or_referer-ne-nil origin referer e =
    ground (arith, eq_bytes_iff origin [], or_dash-ne-nil referer)

-- No label of the metric of a request is empty, whatever the request and the response lack.
pub labels-ne-nil :
    (x : Exchange)
    → ((labels x).method ≢ [])
      × ((labels x).protocol ≢ [])
      × ((labels x).path ≢ [])
      × ((labels x).status_code ≢ [])
      × ((labels x).origin ≢ [])
      × ((labels x).ip ≢ [])
      × ((labels x).user_id ≢ [])
      × ((labels x).user_agent ≢ [])
unfolding labels
labels-ne-nil x = (
  or_dash-ne-nil x.method,
  or_dash-ne-nil x.proto,
  or_dash-ne-nil x.path,
  (or_dash_zero-ne-nil (show_int x.status)).0,
  origin_or_referer-ne-nil x.origin x.referer,
  or_dash-ne-nil x.real_ip,
  or_dash-ne-nil x.user_id,
  or_dash-ne-nil x.user_agent,
)
