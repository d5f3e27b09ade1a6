-- ===== src/Events/Broker/Delivery.antt =====
-- What a broadcast does to each subscriber.
use nexspence_demo.Prelude.{
  All, Bool-cases, List, Text, [], any_of, ap, arith, false, if◌then◌else◌, inl, inr, length, ltb,
  or_false, refl, true, ℕ, ◌++◌, ◌+◌, ◌==◌, ◌∙◌, ◌∷◌, ◌≡◌,
}
use nexspence_demo.Events.Broker.{Broker, offer, send, send_all, dispatch, set_channel}

abbrev pub IsDistinct : List ℕ → Type 0
IsDistinct [] = Unit {0}
IsDistinct (i ∷ is) = All (λ j. (i == j) ≡ false) is × IsDistinct is

pub send_all-buf_len :
    (payload : Text) (subs : List ℕ) (b : Broker) → (send_all payload subs b).buf_len ≡ b.buf_len
unfolding send_all send
send_all-buf_len payload [] b = refl
send_all-buf_len payload (i ∷ subs) b = send_all-buf_len payload subs (send payload i b)

pub send_all-subs :
    (payload : Text) (subs : List ℕ) (b : Broker) → (send_all payload subs b).subs ≡ b.subs
unfolding send_all send
send_all-subs payload [] b = refl
send_all-subs payload (i ∷ subs) b = send_all-subs payload subs (send payload i b)

send_all-other :
    (payload : Text) (subs : List ℕ) (b : Broker) (j : ℕ)
    → any_of (λ i. i == j) subs ≡ false
    → (send_all payload subs b).channel j ≡ b.channel j
unfolding send_all send set_channel
send_all-other payload [] b j h = refl
send_all-other payload (i ∷ subs) b j h =
    let (x, y) = or_false (i == j) (any_of (λ k. k == j) subs) h in
    send_all-other payload subs (send payload i b) j y ∙ rw x

not_again :
    (i j : ℕ) (subs : List ℕ)
    → (i == j) ≡ true
    → All (λ k. (i == k) ≡ false) subs
    → any_of (λ k. k == j) subs ≡ false
not_again i j [] e h = refl
not_again i j (k ∷ subs) e h = ground (arith, h.0, not_again i j subs e h.1)

equal : {i j : ℕ} → (i == j) ≡ true → i ≡ j
equal h = ground (arith, h)

send_all-one :
    (payload : Text) (subs : List ℕ) (b : Broker) (j : ℕ)
    → IsDistinct subs
    → any_of (λ i. i == j) subs ≡ true
    → (send_all payload subs b).channel j ≡ offer b.buf_len payload (b.channel j)
unfolding send_all send set_channel
send_all-one payload [] b j d h = cc
send_all-one payload (i ∷ subs) b j d h = elim (Bool-cases (i == j)) [
  | inl same ↦
      send_all-other payload subs (send payload i b) j (not_again i j subs same d.0)
      ∙ rw same (ap (λ k. offer b.buf_len payload (b.channel k)) (equal same))
  | inr apart ↦ send_all-one payload subs (send payload i b) j d.1 (rw apart at h) ∙ rw apart
]

-- With each subscriber listed once, a broadcast reaches every subscriber exactly once: it waits behind
-- what waits already if there is room, and is counted as dropped if there is none. Nobody else's
-- channel changes, and nobody is subscribed or removed.
pub dispatch-delivers :
    (payload : Text) (b : Broker) (j : ℕ)
    → IsDistinct b.subs
    → ((dispatch payload b).channel j ≡ (
        if any_of (λ i. i == j) b.subs
        then (if ltb (length (b.channel j).waiting) b.buf_len
            then record (b.channel j) { waiting = (b.channel j).waiting ++ (payload ∷ []) }
            else record (b.channel j) { dropped = (b.channel j).dropped + 1 })
        else b.channel j))
      × ((dispatch payload b).subs ≡ b.subs)
unfolding dispatch offer
dispatch-delivers payload b j d = elim (Bool-cases (any_of (λ i. i == j) b.subs)) [
  | inl listed ↦
      rw listed (send_all-one payload b.subs b j d listed, send_all-subs payload b.subs b)
  | inr absent ↦
      rw absent (send_all-other payload b.subs b j absent, send_all-subs payload b.subs b)
]
