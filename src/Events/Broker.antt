-- ===== src/Events/Broker.antt =====
-- internal/events/broker.go: subscriptions as bounded channels. A subscription is known by a number,
-- and its channel by the events that wait in it. Each operation is one step: the lock excludes every
-- other one while a broadcast is on its way.
pub mod Reach
pub mod Delivery
use nexspence_demo.Prelude.{
  Bool, List, Option, Text, [], any_of, drop, false, if◌then◌else◌, keep_if, length, ltb, none, not,
  some, true, ℕ, ◌++◌, ◌+◌, ◌==◌, ◌||◌, ◌∷◌,
}

-- A channel with its subscription's DroppedCount (a uint64, taken to stay below 2 ^ 64).
pub record Channel : Type 0 where
  pub waiting : List Text
  pub closed : Bool
  pub dropped : ℕ

-- `panicked` records a send on a closed channel or the closing of one.
pub record Broker : Type 0 where
  pub buf_len : ℕ
  pub subs : List ℕ
  pub channel : ℕ → Channel
  pub fresh : ℕ
  pub panicked : Bool

abbrev pub new_channel : Channel
new_channel = record { waiting = []; closed = false; dropped = 0 }

unfoldable pub set_channel : ℕ → Channel → (ℕ → Channel) → ℕ → Channel
set_channel i c f j = if i == j then c else f j

-- A length that is not positive is 0.
unfoldable pub new_broker : ℕ → Broker
new_broker buf_len = record {
  buf_len = if buf_len == 0 then 32 else buf_len;
  subs = [];
  channel = λ i. new_channel;
  fresh = 0;
  panicked = false;
}

unfoldable pub subscribe : Broker → Broker
unfolding set_channel
subscribe b = record b {
  subs = b.subs ++ (b.fresh ∷ []);
  channel = set_channel b.fresh new_channel b.channel;
  fresh = b.fresh + 1;
}

-- close(s.out)
unfoldable pub close : ℕ → Broker → Broker
unfolding set_channel
close i b = record b {
  panicked = b.panicked || (b.channel i).closed;
  channel = set_channel i (record (b.channel i) { closed = true }) b.channel;
}

-- A nil subscription is `none`.
unfoldable pub unsubscribe : Option ℕ → Broker → Broker
unfolding close
unsubscribe none b = b
unsubscribe (some i) b =
    if any_of (λ j. j == i) b.subs
    then close i (record b { subs = keep_if (λ j. not (j == i)) b.subs })
    else b

-- The select: sent where there is room, counted where there is none.
unfoldable pub offer : ℕ → Text → Channel → Channel
offer buf_len payload c =
    if ltb (length c.waiting) buf_len
    then record c { waiting = c.waiting ++ (payload ∷ []) }
    else record c { dropped = c.dropped + 1 }

unfoldable pub send : Text → ℕ → Broker → Broker
unfolding offer set_channel
send payload i b = record b {
  panicked = b.panicked || (b.channel i).closed;
  channel = set_channel i (offer b.buf_len payload (b.channel i)) b.channel;
}

unfoldable pub send_all : Text → List ℕ → Broker → Broker
unfolding send
send_all payload [] b = b
send_all payload (i ∷ subs) b = send_all payload subs (send payload i b)

-- The order in which the map is ranged over is that of `subs`; each subscriber has its own channel.
unfoldable pub dispatch : Text → Broker → Broker
unfolding send_all
dispatch payload b = send_all payload b.subs b

unfoldable pub count : Broker → ℕ
count b = length b.subs

-- A client takes the oldest event off its channel.
unfoldable pub receive : ℕ → Broker → Broker
unfolding set_channel
receive i b = record b {
  channel =
      set_channel i (record (b.channel i) { waiting = drop 1 (b.channel i).waiting }) b.channel;
}
