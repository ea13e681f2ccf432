-- ===== src/Grpc/Laws.antt =====
-- The client's connections, and what is logged of a call.
use go_template_aerospike.Prelude.{
  Bytes, eq_bytes, eq_bytes_iff, true, Option, none, some, List, [], ◌∷◌, ◌≡◌, refl, sym, ap, ◌∙◌,
  arith, Dict, IsDict, IsVisit, get_key, get_key-set_key, if◌then◌else◌, Bool-cases, inl, inr, ◌↔◌,
  Has, ℤ,
}
use go_template_aerospike.Query.{Result, ok, error}
use go_template_aerospike.Grpc.{
  add_conn, dial_all, new_client, conn_of, get_conn, invalid_service, is_one_of, true_texts,
  false_texts, parse_bool, get_event_api_from_context, answered, panicked, logger_middleware,
}

module _ {Error Conn : Type 0} (dial : Bytes → Result Error Conn) where
  abbrev dialled : Result Error Conn → Option Conn → Option Conn
  dialled (error e) old = old
  dialled (ok conn) old = some conn

  abbrev after_dial : Option Bytes → Option Conn → Option Conn
  after_dial none old = old
  after_dial (some uri) old = dialled (dial uri) old

  add_conn-get_key :
      (svc k : Bytes) (r : Result Error Conn) (out : Dict Conn)
      → get_key k (add_conn dial svc r out)
        ≡ (if eq_bytes svc k then dialled r (get_key k out) else get_key k out)
  add_conn-get_key svc k (error e) out = ground arith
  add_conn-get_key svc k (ok conn) out = get_key-set_key svc k conn out

  get_key-dial_all :
      (targets : Dict Bytes) (out : Dict Conn) (k : Bytes)
      → IsDict targets
      → get_key k (dial_all dial targets out) ≡ after_dial (get_key k targets) (get_key k out)
  unfolding dial_all get_key
  get_key-dial_all [] out k h = refl
  get_key-dial_all ((svc, uri) ∷ targets) out k (free, h) =
      get_key-dial_all targets (add_conn dial svc (dial uri) out) k h
      ∙ ap (after_dial (get_key k targets)) (add_conn-get_key svc k (dial uri) out)
      ∙ (elim (Bool-cases (eq_bytes svc k)) [
        | inl hit ↦
            rw (hit, sym (ap (λ j. get_key j targets) ((eq_bytes_iff svc k).0 hit)) ∙ free) refl
        | inr miss ↦ rw miss refl
      ])

  abbrev pub expected : Option Bytes → Result Bytes Conn
  expected none = error (invalid_service none)
  expected (some uri) = elim (dial uri) [
    | error e ↦ error (invalid_service (some uri))
    | ok conn ↦ ok conn
  ]

  conn_of-after_dial :
      (target : Option Bytes) → conn_of target (after_dial target none) ≡ expected target
  conn_of-after_dial none = refl
  conn_of-after_dial (some uri) = of_dial (dial uri)
    where
      of_dial :
          (r : Result Error Conn)
          → conn_of (some uri) (dialled r none)
            ≡ elim r [ error e ↦ error (invalid_service (some uri)) | ok conn ↦ ok conn ]
      of_dial (error e) = refl
      of_dial (ok conn) = refl

  -- A client that was made for services gives, under a service's name, the connection that was made to
  -- its address; an error if that connection failed or the name is not a service's. The order in which
  -- the services were visited does not matter.
  pub get_conn-new_client :
      (order : Dict Bytes → Dict Bytes) (targets : Dict Bytes) (svc : Bytes)
      → IsVisit order
      → IsDict targets
      → get_conn (new_client dial order targets) svc ≡ expected (get_key svc targets)
  unfolding get_conn new_client
  get_conn-new_client order targets svc visits h =
      let (once, same) = visits targets h in
      ap (conn_of (get_key svc targets))
        (get_key-dial_all (order targets) [] svc once ∙ ap (λ o. after_dial o none) (same svc))
      ∙ conn_of-after_dial (get_key svc targets)

is_one_of_iff : (ts : List Bytes) (s : Bytes) → (is_one_of ts s ≡ true) ↔ Has s ts
unfolding is_one_of
is_one_of_iff [] s = ground arith
is_one_of_iff (t ∷ ts) s = ground (arith, is_one_of_iff ts s, eq_bytes_iff t s)

flag_is_one_of :
    (v : Bytes) (vs : List Bytes) → get_event_api_from_context (v ∷ vs) ≡ is_one_of true_texts v
unfolding get_event_api_from_context parse_bool
flag_is_one_of v vs = elim (Bool-cases (is_one_of true_texts v)) [
  | inl set ↦ rw (parse_bool, set) refl
  | inr unset ↦ elim (Bool-cases (is_one_of false_texts v)) [
    | inl off ↦ rw (parse_bool, unset, off) refl
    | inr bad ↦ rw (parse_bool, unset, bad) refl
  ]
]

-- The event flag of a request is set exactly when its first value is one of the six texts that
-- `strconv.ParseBool` takes for true.
pub get_event_api_from_context_iff :
    (v : Bytes) (vs : List Bytes) → (get_event_api_from_context (v ∷ vs) ≡ true) ↔ Has v true_texts
get_event_api_from_context_iff v vs =
    let (there, back) = is_one_of_iff true_texts v in
    (λ h. there (sym (flag_is_one_of v vs) ∙ h), λ m. flag_is_one_of v vs ∙ back m)

module _ {Error A : Type 0} (status_code : Option Error → Option Bytes) (method : Bytes)
    (duration : ℤ) where
  -- The middleware passes on what the handler answered, and a call whose handler panics is logged and
  -- counted like one that was answered without an error.
  pub logger_middleware-panicked :
      (a : A)
      → ((logger_middleware status_code {A = A} method duration panicked).0 ≡ panicked)
        × ((logger_middleware status_code {A = A} method duration panicked).1
            ≡ (logger_middleware status_code {A = A} method duration (answered a none)).1)
  unfolding logger_middleware
  logger_middleware-panicked a = (refl, refl)
