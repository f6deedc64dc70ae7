-- ===== src/Tak/Sink/Serving.antt =====
-- What sessions write, and what they leave in the queue.
use meshcore_rpc_services.Prelude.{
  ℕ, zero, suc, ◌+◌, ◌≤◌, ◌≡◌, refl, ap, ◌∙◌, List, [], ◌∷◌, ◌++◌, Option, none, some, Bool, true,
  false, length, arith, All, lt→ltb, length-append,
}
use mathlib.Core.List.{append_assoc, append-nil}
use meshcore_rpc_services.Tak.Sink.{
  TakSink, Drain, drained, Input, turn, sent, stop, serve, send, send_all, queue_cap, begin_session,
  on_input, take_turn,
}

module _ {A : Type 0} where
  -- Events are sent and written with no error, and `stop` is not called.
  abbrev pub is_quiet : Input A → Bool
  is_quiet (turn xs drained) = true
  is_quiet (turn xs _) = false
  is_quiet (sent x) = true
  is_quiet stop = false

  abbrev pub sent_of : List (Input A) → List A
  sent_of [] = []
  sent_of (sent x ∷ inputs) = x ∷ sent_of inputs
  sent_of (turn xs d ∷ inputs) = xs ++ sent_of inputs
  sent_of (stop ∷ inputs) = sent_of inputs

  abbrev pub turns : ℕ → List (Input A)
  turns zero = []
  turns (suc n) = turn [] drained ∷ turns n

  abbrev drained_sink : TakSink A → TakSink A
  drained_sink s = record s { queue = []; written = s.written ++ s.queue }

  serve-turns :
      (n : ℕ) (q w : List A) (c : Bool)
      → length q ≤ n
      → serve (turns n) (record { queue = q; was_connected = c; written = w })
        ≡ (record { queue = []; was_connected = c; written = w ++ q }, none)
  unfolding serve send_all
  serve-turns zero [] w c h = rw append-nil
  serve-turns zero (x ∷ q) w c h = absurd (omega arith)
  serve-turns (suc n) [] w c h = serve-turns n [] w c (omega arith)
  serve-turns (suc n) (x ∷ q) w c h =
      serve-turns n q (w ++ x ∷ []) c (omega arith)
      ∙ ap (λ (l : List A). (record { queue = []; was_connected = c; written = l }, none))
          (append_assoc w (x ∷ []) q)

  send_room : (x : A) (q : List A) → suc (length q) ≤ queue_cap → send queue_cap x q ≡ q ++ x ∷ []
  unfolding send
  send_room x q h = rw (lt→ltb (length q) queue_cap (omega arith))

  send_all_room :
      (xs q : List A) → length q + length xs ≤ queue_cap → send_all queue_cap xs q ≡ q ++ xs
  unfolding send_all
  send_all_room [] q h = rw append-nil
  send_all_room (x ∷ xs) q h =
      ap (send_all queue_cap xs) (send_room x q (omega arith))
      ∙ send_all_room xs (q ++ x ∷ []) (omega (arith, length-append {0} q (x ∷ [])))
      ∙ append_assoc q (x ∷ []) xs

  -- Events that find room are written in the order of their sending, once there are turns for all.
  serve-sent_of :
      (n : ℕ) (inputs : List (Input A)) (q w : List A) (c : Bool)
      → All (λ i. is_quiet i ≡ true) inputs
      → length q + length (sent_of inputs) ≤ queue_cap
      → length q + length (sent_of inputs) ≤ n
      → serve (inputs ++ turns n) (record { queue = q; was_connected = c; written = w })
        ≡ (record { queue = []; was_connected = c; written = w ++ (q ++ sent_of inputs) }, none)
  unfolding serve
  serve-sent_of n [] q w c quiet room h = rw append-nil (serve-turns n q w c (omega arith))
  serve-sent_of n (turn xs drained ∷ inputs) [] w c quiet room h =
      rw (send_all_room xs [] (omega (arith, length-append {0} xs (sent_of inputs)))) (
        serve-sent_of n inputs xs w c quiet.1 (omega (arith, length-append {0} xs (sent_of inputs)))
          (omega (arith, length-append {0} xs (sent_of inputs))))
  serve-sent_of n (turn xs drained ∷ inputs) (x ∷ q) w c quiet room h =
      rw (send_all_room xs q (omega (arith, length-append {0} xs (sent_of inputs)))) (
        serve-sent_of n inputs (q ++ xs) (w ++ x ∷ []) c quiet.1
          (omega (arith, length-append {0} xs (sent_of inputs), length-append {0} q xs))
          (omega (arith, length-append {0} xs (sent_of inputs), length-append {0} q xs))
        ∙ ap (λ (l : List A). (record { queue = []; was_connected = c; written = l }, none))
            (append_assoc w (x ∷ []) ((q ++ xs) ++ sent_of inputs)
              ∙ ap (λ l. w ++ x ∷ l) (append_assoc q xs (sent_of inputs))))
  serve-sent_of n (turn xs Drain.broken ∷ inputs) q w c quiet room h =
      absurd (ground (arith, quiet.0))
  serve-sent_of n (turn xs Drain.failed ∷ inputs) q w c quiet room h =
      absurd (ground (arith, quiet.0))
  serve-sent_of n (sent x ∷ inputs) q w c quiet room h = rw (send_room x q (omega arith)) (
      serve-sent_of n inputs (q ++ x ∷ []) w c quiet.1 (omega (arith, length-append {0} q (x ∷ [])))
        (omega (arith, length-append {0} q (x ∷ [])))
      ∙ ap (λ (l : List A). (record { queue = []; was_connected = c; written = w ++ l }, none))
          (append_assoc q (x ∷ []) (sent_of inputs)))
  serve-sent_of n (stop ∷ inputs) q w c quiet room h = absurd (ground (arith, quiet.0))

-- While nothing fails and no more is sent than the queue has room for, a session writes all that was
-- queued when it started, and then all that is sent meanwhile, each event once and in order, and its
-- queue is empty: as many further turns of the loop as there are such events are enough.
pub serve-turns-drained :
    {A : Type 0} (n : ℕ) (inputs : List (Input A)) (s : TakSink A)
    → All (λ i. is_quiet i ≡ true) inputs
    → length s.queue + length (sent_of inputs) ≤ queue_cap
    → length s.queue + length (sent_of inputs) ≤ n
    → serve (inputs ++ turns n) s
      ≡ (record s { queue = []; written = s.written ++ (s.queue ++ sent_of inputs) }, none)
serve-turns-drained n inputs s quiet room h =
    serve-sent_of n inputs s.queue s.written s.was_connected quiet room h

module _ {A : Type 0} where
  take_turn-was_connected :
      (q xs : List A) (s : TakSink A) (d : Drain)
      → (take_turn q xs s d).0.was_connected ≡ s.was_connected
  take_turn-was_connected [] xs s d = refl
  take_turn-was_connected (x ∷ q) xs s drained = refl
  take_turn-was_connected (x ∷ q) xs s Drain.broken = refl
  take_turn-was_connected (x ∷ q) xs s Drain.failed = refl

  on_input-was_connected :
      (i : Input A) (s : TakSink A) → (on_input s i).0.was_connected ≡ s.was_connected
  unfolding send
  on_input-was_connected (sent x) s = refl
  on_input-was_connected stop s = refl
  on_input-was_connected (turn xs d) s = take_turn-was_connected s.queue xs s d

  serve-was_connected :
      (inputs : List (Input A)) (s : TakSink A) → (serve inputs s).0.was_connected ≡ s.was_connected
  unfolding serve
  serve-was_connected [] s = refl
  serve-was_connected (i ∷ inputs) s =
      ground (arith, on_input-was_connected i s, serve-was_connected inputs (on_input s i).0)

  -- Once a session has begun, the next one, whatever this one does and however it ends, starts from
  -- what `on_reconnect` puts into an empty queue: no event of before is retried, also none that was
  -- put back after a failed write.
  pub begin_session-serve :
      (on_reconnect : Option (List A → List A)) (inputs : List (Input A)) (s : TakSink A)
      → (begin_session on_reconnect (serve inputs (begin_session on_reconnect s)).0).queue
        ≡ elim on_reconnect [ none ↦ [] | some f ↦ f [] ]
  unfolding begin_session
  begin_session-serve on_reconnect inputs s = rw (serve-was_connected inputs _)
