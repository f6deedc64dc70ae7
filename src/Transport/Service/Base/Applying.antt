-- ===== src/Transport/Service/Base/Applying.antt =====
-- Which of the fixes that `on_fix` of meshcore_rpc_services/transport/service.py hears are due, and actions
-- that apply them.
use meshcore_rpc_services.Prelude.{
  ◌≡◌, refl, sym, ap, subst, ◌∙◌, Bool, true, false, ◌||◌, Option, some, List, [], ◌∷◌, ◌++◌,
  if◌then◌else◌, map,
}
use mathlib.Core.List.{append_assoc, append-nil, map-append}
use meshcore_rpc_services.Prelude.Int.{Fixed, ◌+ℤ◌, ◌-ℤ◌, leb_ℤ}
use meshcore_rpc_services.Prelude.Dict.{Dict}
use meshcore_rpc_services.Gpsd.{GpsdFix}
use meshcore_rpc_services.Runtime.{
  pass, World, Message, Result, ok, M, pure, gets, modify, time, ◌>>=◌, continue,
}
use meshcore_rpc_services.Runtime.Calls.{message}
use meshcore_rpc_services.State.{base_entries, compact_json}
use meshcore_rpc_services.Topics
use meshcore_rpc_services.Transport.Service.Base.{BasePublisher, moved, location_of, stored_base}
use meshcore_rpc_services.Value.{Json}

abbrev pub entries_of : GpsdFix → Dict Json
entries_of fix = base_entries (location_of fix) "gpsd"

-- The stored base location after some fixes were applied, and the retained messages about them.
abbrev pub base_after : Option (Dict Json) → List GpsdFix → Option (Dict Json)
base_after old [] = old
base_after old (fix ∷ fixes) = base_after (some (entries_of fix)) fixes

unfoldable pub announced : Bool → List GpsdFix → List Message
unfolding compact_json
announced false fixes = []
announced true fixes =
    map (λ fix. message Topics.base_location (compact_json (entries_of fix)) true) fixes

-- The variables of `on_fix` after a fix is applied: where it cannot be published, they stay.
abbrev pub publisher_after : Bool → Fixed → GpsdFix → BasePublisher → BasePublisher
publisher_after false now fix st = st
publisher_after true now fix st = record { last_publish = now; last_pos = some (fix.lat, fix.lon) }

-- A fix is due if it has moved, or if the publishing interval has passed.
abbrev pub due : Fixed → BasePublisher → Fixed × GpsdFix → Bool
due interval st (now, fix) = moved st.last_pos fix || leb_ℤ interval (now -ℤ st.last_publish)

-- The fixes among those heard that are due, and the variables of `on_fix` after them.
abbrev pub due_now : Fixed → BasePublisher → Fixed × GpsdFix → List GpsdFix
due_now interval st heard = if due interval st heard then heard.1 ∷ [] else []

abbrev pub next_publisher : Fixed → Bool → BasePublisher → Fixed × GpsdFix → BasePublisher
next_publisher interval b st heard =
    if due interval st heard then publisher_after b heard.0 heard.1 st else st

abbrev pub due_fixes : Fixed → Bool → BasePublisher → List (Fixed × GpsdFix) → List GpsdFix
due_fixes interval b st [] = []
due_fixes interval b st (h ∷ hs) =
    due_now interval st h ++ due_fixes interval b (next_publisher interval b st h) hs

abbrev pub publisher_over : Fixed → Bool → BasePublisher → List (Fixed × GpsdFix) → BasePublisher
publisher_over interval b st [] = st
publisher_over interval b st (h ∷ hs) =
    publisher_over interval b (next_publisher interval b st h) hs

-- No call is going to fail, the broker is connected or not, and the clock shows this.
pub record At (b : Bool) (now : Fixed) (w : World) : Type 0 where
  pub idle : w.script ≡ []
  pub online : w.connected ≡ b
  pub shows : w.clock ≡ now

-- How an action ends that applies these fixes.
pub record Follows {A : Type 0} (b : Bool) (later : Fixed) (fixes : List GpsdFix) (a : A)
    (w : World) (out : Result A × World) : Type 0 where
  pub after : At b later out.1
  pub result : out.0 ≡ ok a
  pub base : stored_base out.1 ≡ base_after (stored_base w) fixes
  pub sent : out.1.published ≡ w.published ++ announced b fixes

pub record Applies {A : Type 0} (b : Bool) (now later : Fixed) (fixes : List GpsdFix) (a : A)
    (m : M A) : Type 0 where
  pub at : (w : World) → At b now w → Follows b later fixes a w (m w)

pub base_after-append :
    (old : Option (Dict Json)) (xs ys : List GpsdFix)
    → base_after old (xs ++ ys) ≡ base_after (base_after old xs) ys
base_after-append old [] ys = refl
base_after-append old (x ∷ xs) ys = base_after-append (some (entries_of x)) xs ys

announced-append :
    (b : Bool) (xs ys : List GpsdFix) → announced b (xs ++ ys) ≡ announced b xs ++ announced b ys
unfolding announced
announced-append false xs ys = refl
announced-append true xs ys = map-append _ xs ys

unsent : (b : Bool) (sent : List Message) → sent ≡ sent ++ announced b []
unfolding announced
unsent false sent = sym (append-nil sent)
unsent true sent = sym (append-nil sent)

Follows-trans :
    {b : Bool} {A B : Type 0} {later last : Fixed} {fs gs : List GpsdFix} {a : A} {x : B}
    {w : World} (r : Result A) (v : World) (out : Result B × World)
    → Follows b later fs a w (r, v)
    → Follows b last gs x v out
    → Follows b last (fs ++ gs) x w out
Follows-trans {b} {fs} {gs} {w} r v out h k = record {
  after = k.after;
  result = k.result;
  base = k.base ∙ ap (λ o. base_after o gs) h.base ∙ sym (base_after-append (stored_base w) fs gs);
  sent =
      k.sent
      ∙ ap (λ l. l ++ announced b gs) h.sent
      ∙ append_assoc w.published (announced b fs) (announced b gs)
      ∙ ap (λ l. w.published ++ l) (sym (announced-append b fs gs));
}

module _ {b : Bool} {now : Fixed} where
  pub Applies-pure : {A : Type 0} (a : A) → Applies b now now [] a (pure a)
  unfolding pure
  Applies-pure a = record {
    at = λ w h. record { after = h; result = refl; base = refl; sent = unsent b w.published };
  }

  pub Applies-pass : (t : Fixed) → Applies b now (now +ℤ t) [] tt (modify (pass t))
  unfolding modify
  Applies-pass t = record {
    at = λ w h. record {
      after = record { idle = h.idle; online = h.online; shows = ap (λ x. x +ℤ t) h.shows };
      result = refl;
      base = refl;
      sent = unsent b w.published;
    };
  }

  pub Applies-time : Applies b now now [] now time
  unfolding time gets
  Applies-time = record {
    at = λ w h. record {
      after = h;
      result = ap ok h.shows;
      base = refl;
      sent = unsent b w.published;
    };
  }

  pub Applies-bind :
      {A B : Type 0} {later last : Fixed} {fs gs : List GpsdFix} {a : A} {x : B} (m : M A)
      (f : A → M B)
      → Applies b now later fs a m
      → Applies b later last gs x (f a)
      → Applies b now last (fs ++ gs) x (m >>= f)
  unfolding ◌>>=◌
  Applies-bind {last} {fs} {gs} {x} m f first k = record {
    at = λ w h.
        let done = first.at w h in
        subst (λ r. Follows b last (fs ++ gs) x w (continue r f (m w).1)) (sym done.result)
          (Follows-trans (m w).0 (m w).1 _ done (k.at (m w).1 done.after));
  }

pub Applies-map :
    {b : Bool} {now later : Fixed} {A B : Type 0} {fs : List GpsdFix} {a : A} (f : A → B) (m : M A)
    → Applies b now later fs a m
    → Applies b now later fs (f a) (m >>= λ x. pure (f x))
Applies-map {b} {now} {later} {fs} {a} f m h =
    subst (λ l. Applies b now later l (f a) (m >>= λ x. pure (f x))) (append-nil fs)
      (Applies-bind m (λ x. pure (f x)) h (Applies-pure (f a)))
