-- ===== src/Processor/Sessions.antt =====
-- What start and stop of `UtxoProcessor` do to its running flag.
use kaspa_python_sdk.Prelude.{
  ◌≡◌, refl, ap, ◌∙◌, Bool, true, false, ◌||◌, ok, is_ok, Result-cases, inl, inr,
}
use kaspa_python_sdk.Processor.Methods.{
  Native, PyUtxoProcessor, Signal, start_notification_task, stop_notification_task, start, stop,
}

module _ (n : Native) (signal : Signal n) where
  -- whenever it is asked to, the task answers
  abbrev pub Answers : Type 0
  Answers = (p : PyUtxoProcessor n) → (signal p).1 ≡ ok tt

  abbrev with_flag : n.RpcClient → n.UtxoProcessor → Bool → PyUtxoProcessor n
  with_flag rpc processor flag = record {
    processor = processor;
    rpc = rpc;
    notification_task = flag;
  }

  stop_notification_task-flag :
      Answers
      → (rpc : n.RpcClient) (processor : n.UtxoProcessor) (flag : Bool)
      → (stop_notification_task n signal (with_flag rpc processor flag)).0.notification_task ≡ false
  unfolding stop_notification_task
  stop_notification_task-flag answers rpc processor true =
      rw (answers (with_flag rpc processor true)) refl
  stop_notification_task-flag answers rpc processor false = refl

  start-flag :
      Answers
      → (rpc : n.RpcClient) (processor : n.UtxoProcessor) (flag : Bool)
      → let (after, result) = start n signal (with_flag rpc processor flag) in
        after.notification_task ≡ flag || is_ok result
  unfolding start start_notification_task
  start-flag answers rpc processor true = elim (Result-cases (n.start_processor processor).1) [
    | inl (_, e) ↦ rw (e, start) refl
    | inr (x, e) ↦ rw (e, start) refl
  ]
  start-flag answers rpc processor false = elim (Result-cases (n.start_processor processor).1) [
    | inl (_, e) ↦ rw (e, start) refl
    | inr (x, e) ↦
        rw (e, start) (stop_notification_task-flag answers rpc (n.start_processor processor).0 true)
  ]

  stop-flag : Answers → (p : PyUtxoProcessor n) → (stop n signal p).0.notification_task ≡ false
  unfolding stop
  stop-flag answers p =
      let flag =
        stop_notification_task-flag answers p.rpc (n.stop_processor p.processor).0
          p.notification_task in
      elim (Result-cases (n.stop_processor p.processor).1) [
        | inl (_, e) ↦ rw (e, stop) flag
        | inr (x, e) ↦ rw (e, stop) flag
      ]

  -- If the task answers whenever it is asked to stop, then, whatever the wallet processor returns, a
  -- start that succeeds leaves the flag set, one that fails leaves it as it was, and after a stop it
  -- is not set, whether the stop succeeds or fails.
  pub start-stop-flag :
      Answers
      → (p : PyUtxoProcessor n)
      → ((start n signal p).0.notification_task ≡ p.notification_task || is_ok (start n signal p).1)
        × ((stop n signal p).0.notification_task ≡ false)
        × ((start n signal (stop n signal p).0).0.notification_task
            ≡ is_ok (start n signal (stop n signal p).0).1)
  start-stop-flag answers p = (
    start-flag answers p.rpc p.processor p.notification_task,
    stop-flag answers p,
    start-flag answers (stop n signal p).0.rpc (stop n signal p).0.processor
          (stop n signal p).0.notification_task
        ∙ ap (λ flag. flag || is_ok (start n signal (stop n signal p).0).1) (stop-flag answers p),
  )
