-- ===== src/Tests/Reentrant.antt =====
-- A listener that removes all listeners while it runs, before another of the same event.
use kaspa_python_sdk.Prelude.{ℕ, ◌≡◌, some, List, [], ◌∷◌, ◌++◌}
use kaspa_python_sdk.Listeners.Callback.{PyCallback}
use kaspa_python_sdk.Rpc.Events.{NotificationEvent, notification}
use kaspa_python_sdk.Rpc.Task.{deliver}
use kaspa_python_sdk.Rpc.Removal.{reached, registered}
use kaspa_python_sdk.Rpc.Views.{Change, removes_all, views}
use kaspa_python_sdk.Rpc.Reentrant.{live, made_by, live-deliver}
use kaspa_python_sdk.Tests.Listeners.{objects, types}
use kaspa_python_sdk.Tests.Tasks.{node, quiet}

abbrev clears : PyCallback objects → ℕ → List (Change objects types)
clears _ _ = removes_all ∷ []

live-deliver_example :
    ((live objects types (node objects 0) clears quiet.callbacks (notification 4) 5).calls
      ≡ (deliver objects types (node objects 0) quiet (notification 4) (some 5)).calls)
    × ((live objects types (node objects 0) clears quiet.callbacks (notification 4) 5).panicked
        ≡ (deliver objects types (node objects 0) quiet (notification 4) (some 5)).panicked)
    × (reached objects types
          (live objects types (node objects 0) clears quiet.callbacks (notification 4) 5).callbacks
          (notification 4)
        ≡ views objects types
            (made_by objects types
              (node objects 0)
              clears
              5
              (live objects types (node objects 0) clears quiet.callbacks (notification 4) 5).calls)
            (registered objects types quiet.callbacks)
            NotificationEvent.all
          ++ views objects types
              (made_by objects types
                (node objects 0)
                clears
                5
                (live objects types
                  (node objects 0)
                  clears
                  quiet.callbacks
                  (notification 4)
                  5).calls)
              (registered objects types quiet.callbacks)
              (notification 4))
live-deliver_example =
    live-deliver objects types (node objects 0) clears quiet (notification 4) 5 (notification 4)
