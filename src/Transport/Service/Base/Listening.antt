-- ===== src/Transport/Service/Base/Listening.antt =====
-- The service listening to the GPS daemon: which of the lines that the client reads in all its sessions
-- become the base location.
use meshcore_rpc_services.Prelude.{
  ℕ, ◌≡◌, refl, sym, ap, subst, ◌∙◌, Bool, true, false, not, Option, none, some, List, [], ◌∷◌,
  ◌++◌, if◌then◌else◌,
}
use mathlib.Core.List.{append_assoc, append-nil}
use meshcore_rpc_services.Prelude.Int.{Fixed, ◌+ℤ◌, ◌-ℤ◌, leb_ℤ}
use meshcore_rpc_services.Gpsd.{GpsdFix, usable}
use meshcore_rpc_services.Gpsd.Session.{
  Read, line, closed, broken, stop, cancel, End, Connection, Round, kept, hand_on, listen, session,
  run, delay_after, next_attempt, wait_then,
}
use meshcore_rpc_services.Runtime.{World, M, pure, raise, gets, attempt, time, perform, step, ◌>>=◌}
use meshcore_rpc_services.Runtime.Calls.{write, publish, send, upsert_base_state}
use meshcore_rpc_services.State.{apply_base_location, compact_json}
use meshcore_rpc_services.Transport.Adapter.{Codec}
use meshcore_rpc_services.Transport.Service.Base.{
  BasePublisher, on_fix, publish_fix, moved, stored_base, get_base_state-upsert_base_state, due_if,
}
use meshcore_rpc_services.Transport.Service.Base.Hearing.{
  handed, heard, time_after, end_of, heard_in, time_in, end_in, after_wait, delays_then, heard_over,
  time_over, delays_over,
}
use meshcore_rpc_services.Transport.Service.Base.Applying.{
  entries_of, base_after, announced, publisher_after, due, due_now, next_publisher, due_fixes,
  publisher_over, At, Follows, Applies, Applies-pure, Applies-pass, Applies-time, Applies-bind,
  Applies-map,
}

abbrev ready : Bool → Fixed → World → World
ready b now w = record w { script = []; connected = b; clock = now }

ready_of : (b : Bool) (now : Fixed) (w : World) → At b now w → ready b now w ≡ w
ready_of b now w h = cc (h.idle, h.online, h.shows)

-- `attempt` of a callback, with the variables that follow.
abbrev noted : BasePublisher → M BasePublisher → M BasePublisher
noted st m = do r ← attempt m; pure (kept st r)

applied :
    (b : Bool) (now : Fixed) (fix : GpsdFix) (st : BasePublisher) (w : World)
    → Follows b now
        (fix ∷ [])
        (publisher_after b now fix st)
        (ready b now w)
        (noted st (publish_fix fix now) (ready b now w))
unfolding publish_fix apply_base_location ◌>>=◌ write perform step upsert_base_state publish send
    gets pure raise attempt compact_json announced
applied true now fix st w = record {
  after = record { idle = refl; online = refl; shows = refl };
  result = refl;
  base = get_base_state-upsert_base_state "location" (entries_of fix) now w.db;
  sent = refl;
}
applied false now fix st w = record {
  after = record { idle = refl; online = refl; shows = refl };
  result = refl;
  base = get_base_state-upsert_base_state "location" (entries_of fix) now w.db;
  sent = sym (append-nil w.published);
}

chosen :
    (d b : Bool) (now : Fixed) (fix : GpsdFix) (st : BasePublisher) (w : World)
    → Follows b now
        (if d then fix ∷ [] else [])
        (if d then publisher_after b now fix st else st)
        (ready b now w)
        (noted st (if not d then pure st else publish_fix fix now) (ready b now w))
unfolding pure attempt ◌>>=◌
chosen true b now fix st w = applied b now fix st w
chosen false b now fix st w =
    (Applies-pure st).at (ready b now w) (record { idle = refl; online = refl; shows = refl })

-- `on_fix` as the client calls it.
noted-Applies :
    (interval : Fixed) (b : Bool) (now : Fixed) (st : BasePublisher) (fix : GpsdFix)
    → Applies b now now
        (due_now interval st (now, fix))
        (next_publisher interval b st (now, fix))
        (noted st (on_fix interval st fix))
unfolding on_fix ◌>>=◌ time gets attempt
noted-Applies interval b now st fix =
    let here = λ (v : World).
      Follows b now (due_now interval st (now, fix)) (next_publisher interval b st (now, fix)) v
        (noted st (on_fix interval st fix) v) in
    let same = due_if (moved st.last_pos fix) (leb_ℤ interval (now -ℤ st.last_publish)) in
    record {
      at = λ w h.
          subst here (ready_of b now w h)
            (rw same (chosen (due interval st (now, fix)) b now fix st w));
    }

module _ (c : Codec) (max_acc_m : Option Fixed) (interval : Fixed) (b : Bool) where
  hand_on-Applies :
      (now later : Fixed) (st : BasePublisher) (o : Option GpsdFix) (hs : List (Fixed × GpsdFix))
      (e : Option End) (reads : List Read)
      → ((st' : BasePublisher)
          → Applies b now later
              (due_fixes interval b st' hs)
              (publisher_over interval b st' hs, e)
              (listen c max_acc_m (on_fix interval) reads st'))
      → Applies b now later
          (due_fixes interval b st (handed now o ++ hs))
          (publisher_over interval b st (handed now o ++ hs), e)
          (hand_on (on_fix interval) st o >>= λ st'. listen c max_acc_m (on_fix interval) reads st')
  hand_on-Applies now later st none hs e reads k = Applies-bind _ _ (Applies-pure st) (k st)
  hand_on-Applies now later st (some fix) hs e reads k =
      Applies-bind _ _ (noted-Applies interval b now st fix)
        (k (next_publisher interval b st (now, fix)))

  listen-Applies :
      (reads : List Read) (now : Fixed) (st : BasePublisher)
      → Applies b now
          (time_after now reads)
          (due_fixes interval b st (heard c max_acc_m now reads))
          (publisher_over interval b st (heard c max_acc_m now reads), end_of reads)
          (listen c max_acc_m (on_fix interval) reads st)
  unfolding listen
  listen-Applies [] now st = Applies-pure _
  listen-Applies (line t text ∷ reads) now st = Applies-bind _ _ (Applies-pass t) (
      Applies-bind _ _ Applies-time (
        hand_on-Applies (now +ℤ t) _ st (usable max_acc_m (c.loads text) (now +ℤ t)) _ _ reads
          (listen-Applies reads (now +ℤ t))))
  listen-Applies (closed t ∷ reads) now st = Applies-bind _ _ (Applies-pass t) (Applies-pure _)
  listen-Applies (broken t ∷ reads) now st = Applies-bind _ _ (Applies-pass t) (Applies-pure _)
  listen-Applies (stop ∷ reads) now st = Applies-pure _
  listen-Applies (cancel ∷ reads) now st = Applies-pure _

  session-Applies :
      (is_open : Bool) (setup : Fixed) (reads : List Read) (now : Fixed) (st : BasePublisher)
      → let conn : Connection = record { setup = setup; is_open = is_open; reads = reads } in
        Applies b now
          (time_in now conn)
          (due_fixes interval b st (heard_in c max_acc_m now conn))
          (publisher_over interval b st (heard_in c max_acc_m now conn), end_in conn)
          (session c max_acc_m (on_fix interval) conn st)
  unfolding session
  session-Applies true setup reads now st =
      Applies-bind _ _ (Applies-pass setup) (listen-Applies reads (now +ℤ setup) st)
  session-Applies false setup reads now st = Applies-bind _ _ (Applies-pass setup) (Applies-pure _)

  due_fixes-append :
      (st : BasePublisher) (hs gs : List (Fixed × GpsdFix))
      → due_fixes interval b st (hs ++ gs)
        ≡ due_fixes interval b st hs ++ due_fixes interval b (publisher_over interval b st hs) gs
  due_fixes-append st [] gs = refl
  due_fixes-append st (h ∷ hs) gs =
      ap (λ l. due_now interval st h ++ l) (due_fixes-append (next_publisher interval b st h) hs gs)
      ∙ sym (append_assoc (due_now interval st h) _ _)

  publisher_over-append :
      (st : BasePublisher) (hs gs : List (Fixed × GpsdFix))
      → publisher_over interval b st (hs ++ gs)
        ≡ publisher_over interval b (publisher_over interval b st hs) gs
  publisher_over-append st [] gs = refl
  publisher_over-append st (h ∷ hs) gs =
      publisher_over-append (next_publisher interval b st h) hs gs

  wait-Applies :
      (stopped : Bool) (o : Option Fixed) (now : Fixed) (later : Fixed → Fixed)
      (hs : Fixed → List (Fixed × GpsdFix)) (delays : List Fixed) (st : BasePublisher)
      (rest : M (BasePublisher × List Fixed))
      → ((delay : Fixed)
          → Applies b
              (now +ℤ delay)
              (later delay)
              (due_fixes interval b st (hs delay))
              (publisher_over interval b st (hs delay), delays)
              rest)
      → Applies b now
          (after_wait now later stopped o)
          (due_fixes interval b st (after_wait [] hs stopped o))
          (publisher_over interval b st (after_wait [] hs stopped o), delays_then stopped o delays)
          (wait_then st stopped o rest)
  wait-Applies stopped none now later hs delays st rest k = Applies-pure _
  wait-Applies true (some delay) now later hs delays st rest k = Applies-pure _
  wait-Applies false (some delay) now later hs delays st rest k =
      Applies-bind _ _ (Applies-pass delay) (Applies-map (λ x. (x.0, delay ∷ x.1)) rest (k delay))

  run-Applies :
      (rounds : List Round) (tries : ℕ) (now : Fixed) (st : BasePublisher)
      → Applies b now
          (time_over tries now rounds)
          (due_fixes interval b st (heard_over c max_acc_m tries now rounds))
          (
            publisher_over interval b st (heard_over c max_acc_m tries now rounds),
            delays_over tries rounds,
          )
          (run c max_acc_m (on_fix interval) rounds tries st)
  unfolding run
  run-Applies [] tries now st = Applies-pure _
  run-Applies (r ∷ rounds) tries now st =
      let conn = r.connection in
      let ended = end_in conn in
      rw
        (
          due_fixes-append st (heard_in c max_acc_m now conn) _,
          publisher_over-append st (heard_in c max_acc_m now conn) _,
        )
        (Applies-bind _ _ (session-Applies conn.is_open conn.setup conn.reads now st) (
          wait-Applies r.stopped_waiting (delay_after tries r ended) _ _ _ _ _ _
            (λ delay. run-Applies rounds (next_attempt tries ended) (time_in now conn +ℤ delay) _)))

  -- A client that the service starts with `on_fix` as its callback, where the awaited calls of the
  -- service are performed at once: whatever its sessions read, and however they end, the stored base
  -- location is then that of the last fix that was due, or the old one if none was; and where the broker
  -- is connected each fix that was due has been published, in order, and otherwise none. A fix is due
  -- if it is the first, if it is far enough from the last one that was published, or if the interval
  -- since then is over; the others are left out.
  pub run-due_fixes :
      (rounds : List Round) (tries : ℕ) (st : BasePublisher) (w : World)
      → At b w.clock w
      → let fixes = due_fixes interval b st (heard_over c max_acc_m tries w.clock rounds) in
        let v = (run c max_acc_m (on_fix interval) rounds tries st w).1 in
        (stored_base v ≡ base_after (stored_base w) fixes)
        × (v.published ≡ w.published ++ announced b fixes)
  run-due_fixes rounds tries st w h =
      let done = (run-Applies rounds tries w.clock st).at w h in (done.base, done.sent)
