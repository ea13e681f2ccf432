-- ===== src/System/Sequential.antt =====
-- The interruptible handlers against the handlers as methods (internal/service/event_process.go,
-- track.go, track_history.go).
use go_template_aerospike.Prelude.{
  ℕ, ℤ, pos, Bytes, eq_bytes, eqb_ℤ, false, Option, none, some, List, ◌≡◌, refl, arith, Outcome,
  returned, panicked, blocked, pure, continue, lift, and_then, if◌then◌else◌, value, Option-cases,
  Bool-cases, inl, inr,
}
use go_template_aerospike.Track.{Track}
use go_template_aerospike.Convert.{convert}
use go_template_aerospike.Convert.Behaviour.{Checked-cases}
use go_template_aerospike.Service.{Any, BaseMessage, World, Service}
use go_template_aerospike.Tracks.{
  track_subject, apply_update, process_ipc_track_update, process_ipc_track_remove, apply_statistic,
  process_ipc_track_statistic, process_ipc_event, receive_nats_msg,
}
use go_template_aerospike.System.{
  Handler, arrived, publishing, removing, listing, encoded, dispatch, advance,
}
use go_template_aerospike.System.Alone.{
  without_result, alone, Ends, Ends-goes, Ends-returned, Ends-panicked, publishing-Ends,
  removing-Ends, listing-Ends,
}

module _ {Db : Type 0} (w : World Db) (now : ℤ) where
  encoded_update-Ends :
      (t : Track) (o : Option Bytes) (s : Service Db) (h : Handler)
      → advance w now h s ≡ returned (encoded (publishing t) o) s
      → Ends w now h s (apply_update w now t o s)
  encoded_update-Ends t none s h e = unfold apply_update in Ends-returned w now h s s e
  encoded_update-Ends t (some payload) s h e =
      Ends-goes w now h (publishing t payload) s s e (publishing-Ends w now t payload s)

  encoded_listing-Ends :
      (ids : List ℤ) (o : Option Bytes) (s : Service Db) (h : Handler)
      → advance w now h s ≡ returned (encoded (listing ids) o) s
      → Ends w now h s (apply_statistic w ids o s)
  encoded_listing-Ends ids none s h e = unfold apply_statistic in Ends-returned w now h s s e
  encoded_listing-Ends ids (some payload) s h e =
      Ends-goes w now h (listing ids payload) s s e (listing-Ends w now ids payload s)

  update-Ends :
      (detail : Option Any) (s : Service Db) (h : Handler)
      → advance w now h s
        ≡ lift
            (and_then
              (convert w.fpu (some (w.unmarshal_track_message detail)))
              (λ converted. value (encoded (publishing converted.0) (w.marshal_track converted.0))))
            s
      → Ends w now h s (process_ipc_track_update w now detail s)
  update-Ends detail s h e =
      elim (Checked-cases (convert w.fpu (some (w.unmarshal_track_message detail)))) [
        | inl p ↦ unfold process_ipc_track_update in rw p (Ends-panicked w now h s s (rw p at e))
        | inr (r, p) ↦
            unfold process_ipc_track_update in
            rw p (encoded_update-Ends r.0 (w.marshal_track r.0) s h (rw p at e))
      ]

  event-Ends :
      (kind : ℤ) (detail : Option Any) (s : Service Db) (h : Handler)
      → advance w now h s ≡ lift (dispatch w kind detail) s
      → Ends w now h s (process_ipc_event w now kind detail s)
  unfolding dispatch process_ipc_event process_ipc_track_remove process_ipc_track_statistic
  event-Ends kind detail s h e = elim (Bool-cases (eqb_ℤ kind (pos 1))) [
    | inl one ↦ rw one (update-Ends detail s h (rw one at e))
    | inr not_one ↦ elim (Bool-cases (eqb_ℤ kind (pos 4))) [
      | inl four ↦
          rw (not_one, four)
            (Ends-goes w now h (removing (w.unmarshal_removed_tracks detail)) s s
              (rw (not_one, four) at e) (removing-Ends w now (w.unmarshal_removed_tracks detail) s))
      | inr not_four ↦ elim (Bool-cases (eqb_ℤ kind (pos 5))) [
        | inl five ↦
            rw (not_one, not_four, five)
              (encoded_listing-Ends (w.unmarshal_track_statistics detail) _ s h
                (rw (not_one, not_four, five) at e))
        | inr not_five ↦
            rw (not_one, not_four, not_five)
              (Ends-returned w now h s s (rw (not_one, not_four, not_five) at e))
      ]
    ]
  ]

  without_result-twice :
      (o : Outcome (Service Db) (Unit {0})) → without_result (continue o (λ _. pure false)) ≡ o
  without_result-twice (returned tt s) = refl
  without_result-twice (panicked s) = refl
  without_result-twice (blocked s) = refl

  -- The message is for another subject, is no base message, or has a type and a detail.
  abbrev read : Bytes → Bytes → Option BaseMessage
  read subject content =
      if eq_bytes subject track_subject then w.unmarshal_base_message content else none

  refused-receive_nats_msg :
      (subject content : Bytes) (s : Service Db)
      → read subject content ≡ none
      → (advance w now (arrived subject content) s ≡ returned none s)
        × (without_result (receive_nats_msg w now subject content s) ≡ returned tt s)
  unfolding advance receive_nats_msg
  refused-receive_nats_msg subject content s h =
      elim (Bool-cases (eq_bytes subject track_subject)) [
        | inl same ↦
            let none_read : w.unmarshal_base_message content ≡ none = rw same at h in
            (rw (same, none_read) refl, rw (same, none_read) refl)
        | inr different ↦ (rw different refl, rw different refl)
      ]

  taken-receive_nats_msg :
      (subject content : Bytes) (base : BaseMessage) (s : Service Db)
      → read subject content ≡ some base
      → (advance w now (arrived subject content) s
          ≡ lift (dispatch w base.message_type base.message_detail) s)
        × (without_result (receive_nats_msg w now subject content s)
            ≡ process_ipc_event w now base.message_type base.message_detail s)
  unfolding advance receive_nats_msg
  taken-receive_nats_msg subject content base s h =
      elim (Bool-cases (eq_bytes subject track_subject)) [
        | inl same ↦
            let is_read : w.unmarshal_base_message content ≡ some base = rw same at h in
            (rw (same, is_read) refl, rw (same, is_read) (without_result-twice _))
        | inr different ↦ absurd (ground arith)
      ]

-- Whatever the message, its handler, if nothing comes between, gets in finitely many steps to where
-- `ReceiveNATSMsg` gets as one call: it returns, panics or waits in its send with the same service.
pub alone-receive_nats_msg :
    {Db : Type 0} (w : World Db) (now : ℤ) (subject content : Bytes) (s : Service Db)
    → (n : ℕ) × (alone w now n (arrived subject content) s
        ≡ some (without_result (receive_nats_msg w now subject content s)))
alone-receive_nats_msg w now subject content s = elim (Option-cases (read w now subject content)) [
  | inl refused ↦
      let (at_once, whole) = refused-receive_nats_msg w now subject content s refused in
      rw whole (Ends-returned w now (arrived subject content) s s at_once)
  | inr (base, is_read) ↦
      let (first, whole) = taken-receive_nats_msg w now subject content base s is_read in
      rw whole
        (event-Ends w now base.message_type base.message_detail s (arrived subject content) first)
]
