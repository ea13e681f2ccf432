-- ===== src/Hub/Laws.antt =====
-- A connection is closed at most once, and never while it is a client; a message reaches every client
-- (internal/hapi/websocket/hub.go).
use go_template_aerospike.Prelude.{
  ℕ, suc, ◌+◌, ◌≤◌, Bytes, Bool, true, false, not, some, List, [], ◌∷◌, ◌++◌, ◌≡◌, refl, sym, ◌∙◌,
  arith, ◌==◌, if◌then◌else◌, any, keep, map, Bool-cases, inl, inr, append-nil, append_assoc,
}
use go_template_aerospike.Hub.{
  Hub, new_hub, drop_client, register, unregister, broadcast, add_client, close_client,
  remove_client, write_each, take_register, take_unregister, take_broadcast,
}

-- How often a connection stands in a list.
abbrev pub times : ℕ → List ℕ → ℕ
times c [] = 0
times c (x ∷ xs) = if x == c then suc (times c xs) else times c xs

times-append : (c : ℕ) (xs ys : List ℕ) → times c (xs ++ ys) ≡ times c xs + times c ys
times-append c [] ys = omega arith
times-append c (x ∷ xs) ys = ground (arith, times-append c xs ys)

times-drop_client :
    (c k : ℕ) (xs : List ℕ) → times c (drop_client k xs) ≡ (if k == c then 0 else times c xs)
unfolding drop_client
times-drop_client c k [] = ground arith
times-drop_client c k (x ∷ xs) = ground (arith, times-drop_client c k xs)

-- Where a connection can be: it waits to be registered, is a client, or is closed.
abbrev pub places : ℕ → Hub → ℕ
places c h = times c h.register_ch + (times c h.clients + times c h.closed)

-- Each connection is in one place at most, and there once.
abbrev pub IsApart : Hub → Type 0
IsApart h = (c : ℕ) → places c h ≤ 1

-- `range` visits every client once.
abbrev pub IsOrder : (List ℕ → List ℕ) → Type 0
IsOrder order = (c : ℕ) (cs : List ℕ) → times c (order cs) ≡ times c cs

-- What happens to a hub. A connection is registered at most once: it is in no place before.
pub data Step (order : List ℕ → List ℕ) : Hub → Hub → Type 0 where
  registers : (c : ℕ) (h h' : Hub) → places c h ≡ 0 → register c h ≡ some h' → Step order h h'
  unregisters : (c : ℕ) (h h' : Hub) → unregister c h ≡ some h' → Step order h h'
  broadcasts : (m : Bytes) (h : Hub) → Step order h (broadcast m h)
  takes_register : (h : Hub) → Step order h (take_register h.register_ch h)
  takes_unregister : (h : Hub) → Step order h (take_unregister h.unregister_ch h)
  takes_broadcast :
      (fails : ℕ → Bool) (h : Hub) → Step order h (take_broadcast order fails h.broadcast_ch h)

pub data Reach (order : List ℕ → List ℕ) : Hub → Type 0 where
  here : Reach order new_hub
  next : {h h' : Hub} → Reach order h → Step order h h' → Reach order h'

register-IsApart :
    (c : ℕ) (h h' : Hub) → IsApart h → places c h ≡ 0 → register c h ≡ some h' → IsApart h'
unfolding register
register-IsApart c h h' apart fresh e k =
    ground (arith, apart k, times-append k h.register_ch (c ∷ []))

unregister-IsApart : (c : ℕ) (h h' : Hub) → IsApart h → unregister c h ≡ some h' → IsApart h'
unfolding unregister
unregister-IsApart c h h' apart e k = ground (arith, apart k)

broadcast-IsApart : (m : Bytes) (h : Hub) → IsApart h → IsApart (broadcast m h)
unfolding broadcast
broadcast-IsApart m h apart k = ground (arith, apart k)

take_register-IsApart :
    (cs : List ℕ) (h : Hub) → h.register_ch ≡ cs → IsApart h → IsApart (take_register cs h)
unfolding take_register add_client
take_register-IsApart [] h e apart k = apart k
take_register-IsApart (c ∷ cs) h e apart k =
    ground (arith, rw e at (apart k), times-drop_client k c h.clients)

any-times : (c : ℕ) (xs : List ℕ) → any (λ x. x == c) xs ≡ true → 1 ≤ times c xs
any-times c [] h = ground arith
any-times c (x ∷ xs) h = ground (arith, any-times c xs)

close_client-IsApart :
    (c : ℕ) (h : Hub) → IsApart h → 1 ≤ times c h.clients → IsApart (close_client c h)
unfolding close_client
close_client-IsApart c h apart there k =
    ground (arith, apart k, times-drop_client k c h.clients, times-append k h.closed (c ∷ []))

take_unregister-IsApart : (cs : List ℕ) (h : Hub) → IsApart h → IsApart (take_unregister cs h)
unfolding take_unregister remove_client
take_unregister-IsApart [] h apart = apart
take_unregister-IsApart (c ∷ cs) h apart = elim (Bool-cases (any (λ x. x == c) h.clients)) [
  | inl there ↦
      rw there (
        close_client-IsApart c (record h { unregister_ch = cs }) apart
          (any-times c h.clients there))
  | inr absent ↦ rw absent apart
]

write_each_closes :
    (fails : ℕ → Bool) (m : Bytes) (c : ℕ) (cs : List ℕ) (h : Hub)
    → fails c ≡ true
    → write_each fails m (c ∷ cs) h ≡ write_each fails m cs (close_client c h)
unfolding write_each
write_each_closes fails m c cs h e = rw (e, write_each) refl

write_each_writes :
    (fails : ℕ → Bool) (m : Bytes) (c : ℕ) (cs : List ℕ) (h : Hub)
    → fails c ≡ false
    → write_each fails m (c ∷ cs) h
      ≡ write_each fails m cs (record h { written = h.written ++ (c, m) ∷ [] })
unfolding write_each
write_each_writes fails m c cs h e = rw (e, write_each) refl

write_each-IsApart :
    (fails : ℕ → Bool) (m : Bytes) (cs : List ℕ) (h : Hub)
    → IsApart h
    → ((c : ℕ) → times c cs ≤ times c h.clients)
    → IsApart (write_each fails m cs h)
unfolding write_each
write_each-IsApart fails m [] h apart fit = apart
write_each-IsApart fails m (c ∷ cs) h apart fit = elim (Bool-cases (fails c)) [
  | inl broken ↦ rw (write_each_closes fails m c cs h broken) (
      write_each-IsApart fails m cs (close_client c h)
        (close_client-IsApart c h apart (ground (arith, fit c)))
        (λ k.
          unfold close_client in ground (arith, fit k, apart k, times-drop_client k c h.clients)))
  | inr fine ↦ rw (write_each_writes fails m c cs h fine) (
      write_each-IsApart fails m cs (record h { written = h.written ++ (c, m) ∷ [] }) apart
        (λ k. ground (arith, fit k)))
]

take_broadcast-IsApart :
    (order : List ℕ → List ℕ) (fails : ℕ → Bool) (ms : List Bytes) (h : Hub)
    → IsOrder order
    → IsApart h
    → IsApart (take_broadcast order fails ms h)
unfolding take_broadcast
take_broadcast-IsApart order fails [] h all apart = apart
take_broadcast-IsApart order fails (m ∷ ms) h all apart =
    write_each-IsApart fails m (order h.clients) (record h { broadcast_ch = ms }) apart
      (λ c. omega (arith, all c h.clients))

Step-IsApart :
    (order : List ℕ → List ℕ) {h h' : Hub}
    → IsOrder order
    → IsApart h
    → Step order h h'
    → IsApart h'
Step-IsApart order all apart (registers c h h' fresh e) = register-IsApart c h h' apart fresh e
Step-IsApart order all apart (unregisters c h h' e) = unregister-IsApart c h h' apart e
Step-IsApart order all apart (broadcasts m h) = broadcast-IsApart m h apart
Step-IsApart order all apart (takes_register h) = take_register-IsApart h.register_ch h refl apart
Step-IsApart order all apart (takes_unregister h) = take_unregister-IsApart h.unregister_ch h apart
Step-IsApart order all apart (takes_broadcast fails h) =
    take_broadcast-IsApart order fails h.broadcast_ch h all apart

-- In every state that the hub can reach, if each connection is registered once: a connection is closed
-- at most once, is not a client any more when it is closed, and stands once among the clients.
pub Reach-IsApart : (order : List ℕ → List ℕ) {h : Hub} → IsOrder order → Reach order h → IsApart h
Reach-IsApart order all here c = omega arith
Reach-IsApart order all (next r s) c = Step-IsApart order all (Reach-IsApart order all r) s c

write_each_lem :
    (fails : ℕ → Bool) (m : Bytes) (cs : List ℕ) (h : Hub)
    → ((write_each fails m cs h).written
        ≡ h.written ++ map (λ c. (c, m)) (keep (λ c. not (fails c)) cs))
      × ((write_each fails m cs h).closed ≡ h.closed ++ keep fails cs)
unfolding write_each close_client
write_each_lem fails m [] h = (sym (append-nil _), sym (append-nil _))
write_each_lem fails m (c ∷ cs) h = elim (Bool-cases (fails c)) [
  | inl broken ↦
      let (wrote, shut) = write_each_lem fails m cs (close_client c h) in
      rw (write_each_closes fails m c cs h broken) (
        rw broken
          (unfold close_client in (wrote, shut ∙ append_assoc h.closed (c ∷ []) (keep fails cs))))
  | inr fine ↦
      let (wrote, shut) =
        write_each_lem fails m cs (record h { written = h.written ++ (c, m) ∷ [] }) in
      rw (write_each_writes fails m c cs h fine)
        (rw fine (wrote ∙ append_assoc h.written ((c, m) ∷ []) _, shut))
]

-- The oldest message that waits is written once to each client whose write does not fail, in the order
-- in which the map is read, and each client whose write fails is closed.
pub take_broadcast_lem :
    (order : List ℕ → List ℕ) (fails : ℕ → Bool) (m : Bytes) (ms : List Bytes) (h : Hub)
    → ((take_broadcast order fails (m ∷ ms) h).written
        ≡ h.written ++ map (λ c. (c, m)) (keep (λ c. not (fails c)) (order h.clients)))
      × ((take_broadcast order fails (m ∷ ms) h).closed ≡ h.closed ++ keep fails (order h.clients))
unfolding take_broadcast
take_broadcast_lem order fails m ms h =
    write_each_lem fails m (order h.clients) (record h { broadcast_ch = ms })
