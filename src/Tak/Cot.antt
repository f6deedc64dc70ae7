-- ===== src/Tak/Cot.antt =====
-- meshcore_rpc_services/tak/cot.py: Cursor-on-Target events.
use meshcore_rpc_services.Prelude.{
  ℕ, ◌≡◌, ◌-◌, ◌/◌, ◌%◌, Bool, true, ◌&&◌, ◌||◌, Option, none, some, List, [], ◌∷◌, ◌++◌, String,
  ◌==◌, format, show_nat, ltb, is_some, if◌then◌else◌,
}
use meshcore_rpc_services.Prelude.Int.{pos, negsuc, Fixed, of_int, leb_ℤ, ◌+ℤ◌, ◌-ℤ◌}
use meshcore_rpc_services.Prelude.Dict.{Dict}
use meshcore_rpc_services.Runtime.{Result, ok, err, crash}

-- `ET.Element`: its tag, its attributes in their order, its text, and its children.
mutual
  pub data Xml : Type 0 where
    element : String → Dict String → Option String → Children → Xml

  pub data Children : Type 0 where
    nil : Children
    cons : Xml → Children → Children

abbrev pub children : List Xml → Children
children [] = nil
children (x ∷ xs) = cons x (children xs)

-- What the builder takes from Python: `strftime` with "%Y-%m-%dT%H:%M:%S.", `f"{x:.<n>f}"`, and
-- `ET.tostring` in UTF-8 with no declaration.
pub record Writer : Type 0 where
  pub strftime : Fixed → String
  pub float_text : ℕ → Fixed → String
  pub tostring : Xml → String

-- A datetime in UTC is the number of seconds since 1970. Python has those of the years 1 to 9999.
abbrev pub min_datetime : Fixed
min_datetime = of_int (negsuc 62135596799)

abbrev pub max_datetime : Fixed
max_datetime = pos 253402300799999999

abbrev pub is_datetime : Fixed → Bool
is_datetime t = leb_ℤ min_datetime t && leb_ℤ t max_datetime

-- `dt.microsecond`, for years before 1970 too.
abbrev pub microsecond : Fixed → ℕ
microsecond (pos n) = n % 1000000
microsecond (negsuc n) = 999999 - n % 1000000

-- `f"{n:03d}"`
abbrev pub pad_3 : ℕ → String
pad_3 n =
    if ltb n 10
    then format ("00" ∷ show_nat n ∷ [])
    else if ltb n 100
    then format ("0" ∷ show_nat n ∷ [])
    else show_nat n

-- `x` if `x` is truthy.
abbrev pub nonempty : Option String → Option String
nonempty none = none
nonempty (some s) = if s == "" then none else some s

-- The arguments of `build_cot`; `how` is always its default. Both callers' times are in UTC already.
pub record Event : Type 0 where
  pub uid : String
  pub cot_type : String
  pub lat : Fixed
  pub lon : Fixed
  pub time_dt : Fixed
  pub stale_after_s : Fixed
  pub callsign : Option String
  pub alt_m : Option Fixed
  pub speed_mps : Option Fixed
  pub course_deg : Option Fixed
  pub accuracy_m : Option Fixed
  pub remarks : Option String

module _ (writer : Writer) where
  -- `_isoz`
  unfoldable pub isoz : Fixed → String
  unfolding format show_nat
  isoz dt = format (writer.strftime dt ∷ pad_3 (microsecond dt / 1000) ∷ "Z" ∷ [])

  abbrev event_attrs : String → String → Fixed → Fixed → Dict String
  event_attrs uid cot_type time stale =
      ("version", "2.0")
      ∷ ("uid", uid)
      ∷ ("type", cot_type)
      ∷ ("how", "m-g")
      ∷ ("time", isoz time)
      ∷ ("start", isoz time)
      ∷ ("stale", isoz stale)
      ∷ []

  abbrev metres : Option Fixed → String
  metres none = "9999999.0"
  metres (some x) = writer.float_text 1 x

  abbrev point : Fixed → Fixed → Option Fixed → Option Fixed → Xml
  point lat lon alt_m accuracy_m =
      element "point"
        (("lat", writer.float_text 7 lat)
          ∷ ("lon", writer.float_text 7 lon)
          ∷ ("hae", metres alt_m)
          ∷ ("ce", metres accuracy_m)
          ∷ ("le", "9999999.0")
          ∷ [])
        none nil

  abbrev contact : Option String → List Xml
  contact none = []
  contact (some callsign) = element "contact" (("callsign", callsign) ∷ []) none nil ∷ []

  abbrev attr : String → ℕ → Option Fixed → Dict String
  attr name digits none = []
  attr name digits (some x) = (name, writer.float_text digits x) ∷ []

  abbrev track : Option Fixed → Option Fixed → List Xml
  track speed_mps course_deg =
      if is_some speed_mps || is_some course_deg
      then element "track" (attr "speed" 2 speed_mps ++ attr "course" 1 course_deg) none nil ∷ []
      else []

  abbrev remarks_element : Option String → List Xml
  remarks_element none = []
  remarks_element (some text) = element "remarks" [] (some text) nil ∷ []

  abbrev detail : Event → Xml
  detail e = element "detail" [] none (
      children (
        contact (nonempty e.callsign)
        ++ (track e.speed_mps e.course_deg ++ remarks_element (nonempty e.remarks))))

  abbrev pub line : Xml → String
  line event = format (writer.tostring event ∷ "\n" ∷ [])

  abbrev pub event_xml : Event → Xml
  event_xml e =
      element "event" (event_attrs e.uid e.cot_type e.time_dt (e.time_dt +ℤ e.stale_after_s)) none
        (cons (point e.lat e.lon e.alt_m e.accuracy_m) (cons (detail e) nil))

  -- The time at which the event is stale has to be a datetime.
  unfoldable pub build_cot : Event → Result String
  build_cot e =
      if is_datetime (e.time_dt +ℤ e.stale_after_s)
      then ok (line (event_xml e))
      else err (crash "OverflowError")

  -- The clock's time is an argument.
  unfoldable pub build_drop_cot : String → String → Fixed → Fixed → Fixed → String
  build_drop_cot uid cot_type lat lon now = line (
      element "event" (event_attrs uid cot_type now (now -ℤ of_int (pos 1))) none
        (cons (point lat lon none none) (cons (element "detail" [] none nil) nil)))

  pub build_cot_lem :
      (e : Event)
      → is_datetime (e.time_dt +ℤ e.stale_after_s) ≡ true
      → build_cot e ≡ ok (line (event_xml e))
  unfolding build_cot
  build_cot_lem e h = rw h
