-- ===== src/Socket/Safety.antt =====
-- What every run of a connection guarantees: no operation before the acknowledgement, no more of
-- them than the setting allows, no operation or source that outlives the close.
use django_graphex.Common.{ℕ, true, false, ◌≡◌, refl, ◌↔◌, String, some, List, [], length}
use django_graphex.Security.Errors.{Formatted, Error}
use django_graphex.Socket.Json.{Key}
use django_graphex.Socket.State.{find}
use django_graphex.Socket.Startup.{Core}
use django_graphex.Socket.Teardown.{Config}
use django_graphex.Socket.Steps.{Event, connection}
use django_graphex.Socket.Definitions.{serves, feeds, Fits, IsGood}
use django_graphex.Socket.Runs.{connection-Good}

module _ {D S X : Type 0} (core : Core D S X) (format : Error → Formatted) (config : Config)
    (user : String) (subprotocols : List String) (events : List (Event S)) where
  good : IsGood config.max_subscriptions (connection core format config user subprotocols events)
  good = connection-Good core format config config.max_subscriptions refl user subprotocols events

  -- In every run, the registry lists under an ID exactly the task that runs under it, and the
  -- dictionary of sources exactly the task that is in the loop over its source.
  pub connection-registered :
      let c = connection core format config user subprotocols events in
      (k : Key) (t : ℕ)
      → ((serves k (c.tasks t) ≡ true) ↔ (find k c.operations ≡ some t))
        × ((feeds k (c.tasks t) ≡ true) ↔ (find k c.sources ≡ some t))
  connection-registered k t = (good.exact k t, good.sourced k t)

  -- In every run, at most MAX_SUBSCRIPTIONS_PER_CONNECTION operations are registered, and none
  -- before the acknowledgement.
  pub connection-admits :
      let c = connection core format config user subprotocols events in
      Fits config.max_subscriptions (length c.operations) × (c.acked ≡ false → c.operations ≡ [])
  connection-admits = (good.bound, good.unacked)
