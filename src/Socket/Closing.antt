-- ===== src/Socket/Closing.antt =====
-- The socket is closed at most once, and what a task can still send behind the close.
use django_graphex.Socket.Quiet.{IsLast, Quiet, Move-Quiet}
use django_graphex.Common.{refl, String, List, [], ◌∷◌, contains, if-holds}
use django_graphex.Security.Errors.{Formatted, Error}
use django_graphex.Socket.State.{Consumer, fresh}
use django_graphex.Socket.Startup.{Core}
use django_graphex.Socket.Teardown.{Config, connect}
use django_graphex.Socket.Steps.{Event, step, run, connection}
use django_graphex.Socket.Definitions.{IsGood}
use django_graphex.Socket.Relation.{step-Move}
use django_graphex.Socket.Runs.{step-Good, fresh-Good}

module _ {D S X : Type 0} (core : Core D S X) (format : Error → Formatted) (config : Config) where
  run-Quiet :
      (events : List (Event S)) (s : Consumer)
      → IsGood config.max_subscriptions s
      → Quiet s
      → Quiet (run core format config events s)
  unfolding run
  run-Quiet [] s g q = q
  run-Quiet (e ∷ events) s g q =
      run-Quiet events (step core format config e s)
        (step-Good core format config config.max_subscriptions refl e s g)
        (Move-Quiet config.max_subscriptions config e s q g (step core format config e s)
          (step-Move core format config config.max_subscriptions e s g))

  -- In every run, the socket is closed at most once, and behind the close nothing is sent but the
  -- error frames of tasks.
  pub connection-IsLast :
      (user : String) (subprotocols : List String) (events : List (Event S))
      → IsLast (connection core format config user subprotocols events).output
  unfolding connection connect
  connection-IsLast user subprotocols events =
      let q =
        run-Quiet events (connect subprotocols (fresh user))
          (if-holds (IsGood config.max_subscriptions) (contains "graphql-transport-ws" subprotocols)
            _ _ (λ f. fresh-Good core format config config.max_subscriptions refl user)
            (λ f. fresh-Good core format config config.max_subscriptions refl user))
          (if-holds Quiet (contains "graphql-transport-ws" subprotocols) _ _
            (λ f. record {
              stopped = λ c. absurd (cc c);
              refused = λ a. absurd (cc a);
              closed = λ h. absurd (cc h);
              last = (λ h. absurd (cc h), tt);
            })
            (λ f. record {
              stopped = λ c. absurd (cc c);
              refused = λ a. (refl, refl);
              closed = λ h. (refl, refl, refl);
              last = (λ h. absurd (cc h), tt);
            })) in
      q.last
