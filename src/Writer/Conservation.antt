-- ===== src/Writer/Conservation.antt =====
-- The accounts of the writer hold in every state that it reaches.
use proven_loop.Shared.{◌+◌, ◌≡◌, ◌||◌, false, List, [], ◌∷◌, length, total}
use proven_loop.Buffer.Data.{Encoding, BoundedCaptureBuffer}
use proven_loop.Buffer.Accounting.{drops_noted, values}
use proven_loop.Writer.Account.{Balance, step-Balance, construct-Balance, in_flight, reported}
use proven_loop.Writer.Order.{AtHead, step-Extends}
use proven_loop.Writer.{AsyncCaptureWriter, Signal, construct, step, run}

module _ (z : Encoding) where
  run_from-Balance :
      (ss : List Signal) (w : AsyncCaptureWriter) → AtHead w → Balance w → Balance (run z ss w)
  unfolding run
  run_from-Balance [] w h v = v
  run_from-Balance (s ∷ ss) w h v =
      run_from-Balance ss (step z s w) (step-Extends z s w h).1 (step-Balance z s w h v)

  reached-Balance :
      (b : BoundedCaptureBuffer) (ss : List Signal)
      → values b ≡ []
      → b.gaps ≡ []
      → Balance (run z ss (construct b))
  unfolding construct
  reached-Balance b ss e g = run_from-Balance ss (construct b) tt (construct-Balance z b e g)

  -- Over any sequence of signals each event received is persisted, dropped or waiting, and none
  -- is counted twice.
  pub run-received :
      (b : BoundedCaptureBuffer) (ss : List Signal)
      → values b ≡ []
      → b.gaps ≡ []
      → let w = run z ss (construct b) in
        w.received_events ≡ w.persisted_events + w.dropped_events + length (values w.buffer)
  run-received b ss e g = (reached-Balance b ss e g).received_split

  -- Over any sequence of signals that leaves the writer neither closing nor stopped, each dropped
  -- event is counted by one gap that waits, is in flight, or was taken by the queue.
  pub run-reported :
      (b : BoundedCaptureBuffer) (ss : List Signal)
      → values b ≡ []
      → b.gaps ≡ []
      → ((run z ss (construct b)).closing || (run z ss (construct b)).stopped) ≡ false
      → let w = run z ss (construct b) in
        w.dropped_events ≡ drops_noted w.buffer + in_flight w.phase + total reported w.delivered
  run-reported b ss e g open_ = (reached-Balance b ss e g).reported_exact open_
