-- ===== src/Samples/Streams.antt =====
-- The event broker on concrete steps.
use nexspence_demo.Prelude.{Text, [], codes, false, refl, some, ◌∷◌, ◌≡◌}
use nexspence_demo.Events.Broker.{Broker, new_broker, subscribe, unsubscribe, dispatch, count}
use nexspence_demo.Events.Broker.Reach.{
  IsSound, Reachable, here, after, subscribed, unsubscribed, dispatched, Reachable-IsSound,
}
use nexspence_demo.Events.Broker.Delivery.{dispatch-delivers}

abbrev event : Text
event = codes "push"

abbrev one_subscriber : Broker
one_subscriber = subscribe (new_broker 1)

steps :
    Reachable (new_broker 1) (dispatch event (unsubscribe (some 0) (dispatch event one_subscriber)))
steps =
    after _ _ _
      (after _ _ _
        (after _ _ _ (after _ _ _ (here (new_broker 1)) (subscribed (new_broker 1)))
          (dispatched event one_subscriber))
        (unsubscribed (some 0) (dispatch event one_subscriber)))
      (dispatched event (unsubscribe (some 0) (dispatch event one_subscriber)))

Reachable-IsSound_example :
    IsSound (dispatch event (unsubscribe (some 0) (dispatch event one_subscriber)))
Reachable-IsSound_example =
    Reachable-IsSound 1 (dispatch event (unsubscribe (some 0) (dispatch event one_subscriber)))
      steps

dispatch-delivers_example :
    ((dispatch event one_subscriber).channel 0
      ≡ record { waiting = event ∷ []; closed = false; dropped = 0 })
    × ((dispatch event one_subscriber).subs ≡ one_subscriber.subs)
unfolding subscribe new_broker
dispatch-delivers_example = dispatch-delivers event one_subscriber 0 (tt, tt)

count_after_removal : count (unsubscribe (some 0) one_subscriber) ≡ 0
unfolding count unsubscribe subscribe new_broker
count_after_removal = refl
