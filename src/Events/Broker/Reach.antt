-- ===== src/Events/Broker/Reach.antt =====
-- What holds of every broker that its operations can lead to.
use nexspence_demo.Prelude.{
  All, All-any_of, All-append, All-imp, All-keep_if, Bool, Bool-cases, List, Option, Text, [],
  any_of, ap, arith, drop, false, inl, inr, keep_if, length, length-append, length-drop, none, not,
  refl, some, subst, sym, true, ℕ, ◌++◌, ◌<◌, ◌==◌, ◌∙◌, ◌∷◌, ◌≡◌, ◌≤◌,
}
use nexspence_demo.Events.Broker.{
  new_broker, send, send_all, close, new_channel, Broker, Channel, set_channel, subscribe,
  unsubscribe, offer, dispatch, receive,
}
use nexspence_demo.Events.Broker.Delivery.{send_all-buf_len, send_all-subs, IsDistinct}

-- One step: an operation of the broker, or a client that reads.
pub data Step : Broker → Broker → Type 0 where
  subscribed : (b : Broker) → Step b (subscribe b)
  unsubscribed : (s : Option ℕ) (b : Broker) → Step b (unsubscribe s b)
  dispatched : (payload : Text) (b : Broker) → Step b (dispatch payload b)
  received : (i : ℕ) (b : Broker) → Step b (receive i b)

-- Steps in any order and number.
pub data Reachable : Broker → Broker → Type 0 where
  here : (b : Broker) → Reachable b b
  after : (a b c : Broker) → Reachable a b → Step b c → Reachable a c

-- A channel within its bound, whether it is open or not.
abbrev pub IsBounded : ℕ → Channel → Type 0
IsBounded n c = length c.waiting ≤ n

-- The channel is open and its number below `fresh`.
abbrev pub IsOpen : Broker → ℕ → Type 0
IsOpen b i = ((b.channel i).closed ≡ false) × (i < b.fresh)

-- Nothing panicked; the listed channels are open and listed once; every channel is within its bound.
pub record IsSound (b : Broker) : Type 0 where
  pub calm : b.panicked ≡ false
  pub open_ones : All (IsOpen b) b.subs
  pub distinct : IsDistinct b.subs
  pub bounded : (i : ℕ) → IsBounded b.buf_len (b.channel i)

set_channel-IsBounded :
    (n i : ℕ) (c : Channel) (f : ℕ → Channel)
    → IsBounded n c
    → ((j : ℕ) → IsBounded n (f j))
    → (j : ℕ) → IsBounded n (set_channel i c f j)
unfolding set_channel
set_channel-IsBounded n i c f h hs j = elim (Bool-cases (i == j)) [
  | inl same ↦ rw same h
  | inr apart ↦ rw apart (hs j)
]

offer-IsBounded :
    (n : ℕ) (payload : Text) (c : Channel) → IsBounded n c → IsBounded n (offer n payload c)
unfolding offer
offer-IsBounded n payload c h = ground (arith, length-append c.waiting (payload ∷ []))

set_channel-other :
    (i j : ℕ) (c : Channel) (f : ℕ → Channel) → (i == j) ≡ false → set_channel i c f j ≡ f j
unfolding set_channel
set_channel-other i j c f h = rw h

set_channel-same : (i : ℕ) (c : Channel) (f : ℕ → Channel) → set_channel i c f i ≡ c
unfolding set_channel
set_channel-same i c f = ground arith

IsDistinct-append :
    (xs : List ℕ) (n : ℕ) → All (λ i. i < n) xs → IsDistinct xs → IsDistinct (xs ++ n ∷ [])
IsDistinct-append [] n h d = (tt, tt)
IsDistinct-append (x ∷ xs) n h d = (
  All-append (λ j. (x == j) ≡ false) xs (n ∷ []) d.0 (ground (arith, h.0), tt),
  IsDistinct-append xs n h.1 d.1,
)

IsDistinct-keep_if : (p : ℕ → Bool) (xs : List ℕ) → IsDistinct xs → IsDistinct (keep_if p xs)
IsDistinct-keep_if p [] d = tt
IsDistinct-keep_if p (x ∷ xs) d = elim (Bool-cases (p x)) [
  | inl kept ↦ rw kept (
    All-imp (λ y h. h.0) (keep_if p xs) (All-keep_if (λ j. (x == j) ≡ false) p xs d.0),
    IsDistinct-keep_if p xs d.1,
  )
  | inr cut ↦ rw cut (IsDistinct-keep_if p xs d.1)
]

subscribe-IsSound : (b : Broker) → IsSound b → IsSound (subscribe b)
unfolding subscribe
subscribe-IsSound b s =
    let still : (i : ℕ) → IsOpen b i → IsOpen (subscribe b) i = λ i h. (
      ap (λ (c : Channel). c.closed)
            (set_channel-other b.fresh i new_channel b.channel (ground (arith, h.1)))
          ∙ h.0,
      omega (arith, h.1),
    ) in
    let own : IsOpen (subscribe b) b.fresh = (
      ap (λ (c : Channel). c.closed) (set_channel-same b.fresh new_channel b.channel),
      omega arith,
    ) in
    record {
      calm = s.calm;
      open_ones =
          All-append (IsOpen (subscribe b)) b.subs (b.fresh ∷ []) (All-imp still b.subs s.open_ones)
            (own, tt);
      distinct =
          IsDistinct-append b.subs b.fresh (All-imp (λ i h. h.1) b.subs s.open_ones) s.distinct;
      bounded =
          set_channel-IsBounded b.buf_len b.fresh new_channel b.channel (omega arith) s.bounded;
    }

receive-IsSound : (b : Broker) (i : ℕ) → IsSound b → IsSound (receive i b)
unfolding receive set_channel
receive-IsSound b i s =
    let c = b.channel i in
    let shorter : length (drop 1 c.waiting) ≤ b.buf_len =
      rw length-drop (omega (arith, s.bounded i)) in
    record {
      calm = s.calm;
      open_ones = All-imp (λ j h. (ground (arith, h.0), h.1)) b.subs s.open_ones;
      distinct = s.distinct;
      bounded =
          set_channel-IsBounded b.buf_len i (record c { waiting = drop 1 c.waiting }) b.channel
            shorter s.bounded;
    }

unsubscribe-IsSound : (b : Broker) (o : Option ℕ) → IsSound b → IsSound (unsubscribe o b)
unfolding unsubscribe close
unsubscribe-IsSound b none s = s
unsubscribe-IsSound b (some i) s = elim (Bool-cases (any_of (λ j. j == i) b.subs)) [
  | inr absent ↦ rw absent s
  | inl listed ↦ rw listed (closing listed)
]
  where
    c : Channel
    c = record (b.channel i) { closed = true }

    closing :
        any_of (λ j. j == i) b.subs ≡ true
        → IsSound (close i (record b { subs = keep_if (λ j. not (j == i)) b.subs }))
    closing listed =
        let (k, (o, h), e) = All-any_of (IsOpen b) (λ j. j == i) b.subs s.open_ones listed in
        let same : k ≡ i = ground (arith, e) in
        let mine : (b.channel i).closed ≡ false =
          subst (λ x. (b.channel x).closed ≡ false) same o in
        record {
          calm = ground (arith, s.calm, mine);
          open_ones =
              All-imp
                (λ j h. (
                  ap (λ (x : Channel). x.closed)
                        (set_channel-other i j c b.channel (ground (arith, h.1)))
                      ∙ h.0.0,
                  h.0.1,
                ))
                (keep_if (λ j. not (j == i)) b.subs)
                (All-keep_if (IsOpen b) (λ j. not (j == i)) b.subs s.open_ones);
          distinct = IsDistinct-keep_if (λ j. not (j == i)) b.subs s.distinct;
          bounded = set_channel-IsBounded b.buf_len i c b.channel (s.bounded i) s.bounded;
        }

send_all-closed :
    (payload : Text) (l : List ℕ) (b : Broker) (j : ℕ)
    → ((send_all payload l b).channel j).closed ≡ (b.channel j).closed
unfolding send_all send set_channel offer
send_all-closed payload [] b j = refl
send_all-closed payload (i ∷ l) b j = send_all-closed payload l (send payload i b) j ∙ ground arith

send-panicked :
    (payload : Text) (i : ℕ) (b : Broker)
    → b.panicked ≡ false
    → (b.channel i).closed ≡ false
    → (send payload i b).panicked ≡ false
unfolding send
send-panicked payload i b calm o = ground (arith, calm, o)

send_all-panicked :
    (payload : Text) (l : List ℕ) (b : Broker)
    → b.panicked ≡ false
    → All (λ i. (b.channel i).closed ≡ false) l
    → (send_all payload l b).panicked ≡ false
unfolding send_all
send_all-panicked payload [] b calm h = calm
send_all-panicked payload (i ∷ l) b calm h =
    send_all-panicked payload l (send payload i b) (send-panicked payload i b calm h.0)
      (All-imp (λ j o. send_all-closed payload (i ∷ []) b j ∙ o) l h.1)

send_all-IsBounded :
    (payload : Text) (l : List ℕ) (b : Broker)
    → ((j : ℕ) → IsBounded b.buf_len (b.channel j))
    → (j : ℕ) → IsBounded b.buf_len ((send_all payload l b).channel j)
unfolding send_all send
send_all-IsBounded payload [] b h j = h j
send_all-IsBounded payload (i ∷ l) b h j =
    send_all-IsBounded payload l (send payload i b)
      (set_channel-IsBounded b.buf_len i (offer b.buf_len payload (b.channel i)) b.channel
        (offer-IsBounded b.buf_len payload (b.channel i) (h i)) h)
      j

send_all-fresh : (payload : Text) (l : List ℕ) (b : Broker) → (send_all payload l b).fresh ≡ b.fresh
unfolding send_all send
send_all-fresh payload [] b = refl
send_all-fresh payload (i ∷ l) b = send_all-fresh payload l (send payload i b)

dispatch-IsSound : (payload : Text) (b : Broker) → IsSound b → IsSound (dispatch payload b)
unfolding dispatch
dispatch-IsSound payload b s =
    let same = send_all-subs payload b.subs b in
    let still : (j : ℕ) → IsOpen b j → IsOpen (dispatch payload b) j = λ j h. (
      send_all-closed payload b.subs b j ∙ h.0,
      subst (λ n. j < n) (sym (send_all-fresh payload b.subs b)) h.1,
    ) in
    record {
      calm = send_all-panicked payload b.subs b s.calm (All-imp (λ j h. h.0) b.subs s.open_ones);
      open_ones =
          subst (All (IsOpen (dispatch payload b))) (sym same) (All-imp still b.subs s.open_ones);
      distinct = subst IsDistinct (sym same) s.distinct;
      bounded = λ j.
          subst (λ n. IsBounded n ((dispatch payload b).channel j))
            (sym (send_all-buf_len payload b.subs b))
            (send_all-IsBounded payload b.subs b s.bounded j);
    }

Step-IsSound : (b c : Broker) → Step b c → IsSound b → IsSound c
Step-IsSound _ _ (subscribed b) s = subscribe-IsSound b s
Step-IsSound _ _ (unsubscribed o b) s = unsubscribe-IsSound b o s
Step-IsSound _ _ (dispatched payload b) s = dispatch-IsSound payload b s
Step-IsSound _ _ (received i b) s = receive-IsSound b i s

new_broker-IsSound : (n : ℕ) → IsSound (new_broker n)
unfolding new_broker
new_broker-IsSound n = record {
  calm = refl;
  open_ones = tt;
  distinct = tt;
  bounded = λ i. omega arith;
}

IsSound-steps : (a b : Broker) → Reachable a b → IsSound a → IsSound b
IsSound-steps _ _ (here b) s = s
IsSound-steps _ _ (after a b c r x) s = Step-IsSound b c x (IsSound-steps a b r s)

-- However subscribing, unsubscribing, broadcasts and reads follow each other, no event is ever sent on
-- a closed channel and none is closed twice, the channels of the subscribers are open, each is listed
-- once, and no channel holds more than the bound.
pub Reachable-IsSound : (n : ℕ) (b : Broker) → Reachable (new_broker n) b → IsSound b
Reachable-IsSound n b r = IsSound-steps (new_broker n) b r (new_broker-IsSound n)
