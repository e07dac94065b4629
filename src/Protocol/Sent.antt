-- ===== src/Protocol/Sent.antt =====
-- src/protocol.rs: what to_xml writes is what the decoder reads.
use mathlib.Core.List.{append_assoc}
use tak_bench.Prelude.{
  ℕ, ◌+◌, ◌≤◌, ◌≡◌, ◌≢◌, refl, ap, ◌∙◌, some, [], ◌∷◌, ◌++◌, length, length-append, All, ok, arith,
}
use tak_bench.Prelude.Bytes.{Bytes, Str, bytes, position, starts_with}
use tak_bench.Protocol.Xml.{XmlLibrary, validate_xml}
use tak_bench.Protocol.Event.{Formats, PositionEvent, escape, to_xml}
use tak_bench.Protocol.Escape.{IsInert, escape-IsInert}
use tak_bench.Protocol.Decoder.{end_marker}
use tak_bench.Protocol.Frames.{IsFrame}

-- The first end marker behind such a text is the first of what follows.
Misses : Bytes → Type 0
Misses text =
    (rest : Bytes) (n : ℕ)
    → position end_marker rest ≡ some n
    → position end_marker (text ++ rest) ≡ some (length text + n)

abbrev pub IsPlain : ℕ → Type 0
IsPlain b = b ≢ b'<'

plain-Misses : (text : Bytes) → All IsPlain text → Misses text
unfolding Misses position starts_with
plain-Misses [] plain rest n h = rw h (ap some (omega arith))
plain-Misses (b ∷ text) plain rest n h = ground (arith, plain.0, plain-Misses text plain.1 rest n h)

Misses-append : (first second : Bytes) → Misses first → Misses second → Misses (first ++ second)
unfolding Misses
Misses-append first second mf ms rest n h = rw (append_assoc first second rest) (
    mf (second ++ rest) (length second + n) (ms rest n h)
    ∙ ap some (omega (arith, length-append first second)))

-- The text ends with its first end marker.
record HasEnd (text : Bytes) : Type 0 where
  body : ℕ
  found : position end_marker text ≡ some body
  whole : body + 8 ≡ length text

HasEnd-append : (text rest : Bytes) → Misses text → HasEnd rest → HasEnd (text ++ rest)
unfolding Misses
HasEnd-append text rest misses end = record {
  body = length text + end.body;
  found = misses rest end.body end.found;
  whole = omega (arith, end.whole, length-append text rest);
}

IsInert-IsPlain : (text : Bytes) → All IsInert text → All IsPlain text
IsInert-IsPlain [] h = tt
IsInert-IsPlain (b ∷ text) h = (h.0.0, IsInert-IsPlain text h.1)

opening-Misses : Misses (bytes "<event version=\"2.0\" uid=\"")
unfolding Misses position starts_with
opening-Misses rest n h = rw h (ap some (omega arith))

type-Misses : Misses (bytes "\" type=\"a-f-G-U-C\" time=\"")
unfolding Misses position starts_with
type-Misses rest n h = rw h (ap some (omega arith))

start-Misses : Misses (bytes "\" start=\"")
unfolding Misses position starts_with
start-Misses rest n h = rw h (ap some (omega arith))

stale-Misses : Misses (bytes "\" stale=\"")
unfolding Misses position starts_with
stale-Misses rest n h = rw h (ap some (omega arith))

point-Misses : Misses (bytes "\" how=\"m-g\"><point lat=\"")
unfolding Misses position starts_with
point-Misses rest n h = rw h (ap some (omega arith))

lon-Misses : Misses (bytes "\" lon=\"")
unfolding Misses position starts_with
lon-Misses rest n h = rw h (ap some (omega arith))

hae-Misses : Misses (bytes "\" hae=\"")
unfolding Misses position starts_with
hae-Misses rest n h = rw h (ap some (omega arith))

contact-Misses : Misses (bytes "\" ce=\"9999999\" le=\"9999999\"/><detail><contact callsign=\"")
unfolding Misses position starts_with
contact-Misses rest n h = rw h (ap some (omega arith))

device-Misses :
    Misses (bytes "\"/><takv device=\"tak_bench\" os=\"Linux\" platform=\"tak_bench\" version=\"")
unfolding Misses position starts_with
device-Misses rest n h = rw h (ap some (omega arith))

track-Misses : Misses (bytes "\"/><track course=\"")
unfolding Misses position starts_with
track-Misses rest n h = rw h (ap some (omega arith))

speed-Misses : Misses (bytes "\" speed=\"")
unfolding Misses position starts_with
speed-Misses rest n h = rw h (ap some (omega arith))

correlation-Misses : Misses (bytes "\"/><tak_bench correlation_id=\"")
unfolding Misses position starts_with
correlation-Misses rest n h = rw h (ap some (omega arith))

closing-HasEnd : HasEnd (bytes "\"/></detail></event>")
unfolding position starts_with
closing-HasEnd = record { body = 12; found = refl; whole = refl }

-- What the program's formats write has no angle bracket that opens.
pub record IsPlainFormat (fmt : Formats) : Type 0 where
  pub f64_plain : (x : fmt.F64) → All IsPlain (fmt.show_f64 x)
  pub time_plain : (t : fmt.Time) → All IsPlain (fmt.timestamp t)
  pub uuid_plain : (id : fmt.Uuid) → All IsPlain (fmt.show_uuid id)
  pub version_plain : All IsPlain fmt.package_version

module _ (fmt : Formats) (plain : IsPlainFormat fmt) where
  escaped-Misses : (text : Str) → Misses (escape text)
  escaped-Misses text =
      plain-Misses (escape text) (IsInert-IsPlain (escape text) (escape-IsInert text))

  to_xml-HasEnd : (e : PositionEvent fmt) → HasEnd (to_xml fmt e)
  unfolding to_xml
  to_xml-HasEnd e =
      let time = plain-Misses (fmt.timestamp e.time) (plain.time_plain e.time) in
      let number = λ (x : fmt.F64). plain-Misses (fmt.show_f64 x) (plain.f64_plain x) in
      let m0 = opening-Misses in
      let m1 = Misses-append _ _ m0 (escaped-Misses e.uid) in
      let m2 = Misses-append _ _ m1 type-Misses in
      let m3 = Misses-append _ _ m2 time in
      let m4 = Misses-append _ _ m3 start-Misses in
      let m5 = Misses-append _ _ m4 time in
      let m6 = Misses-append _ _ m5 stale-Misses in
      let m7 =
        Misses-append _ _ m6 (plain-Misses (fmt.timestamp e.stale) (plain.time_plain e.stale)) in
      let m8 = Misses-append _ _ m7 point-Misses in
      let m9 = Misses-append _ _ m8 (number e.latitude) in
      let m10 = Misses-append _ _ m9 lon-Misses in
      let m11 = Misses-append _ _ m10 (number e.longitude) in
      let m12 = Misses-append _ _ m11 hae-Misses in
      let m13 = Misses-append _ _ m12 (number e.altitude_m) in
      let m14 = Misses-append _ _ m13 contact-Misses in
      let m15 = Misses-append _ _ m14 (escaped-Misses e.callsign) in
      let m16 = Misses-append _ _ m15 device-Misses in
      let m17 = Misses-append _ _ m16 (plain-Misses fmt.package_version plain.version_plain) in
      let m18 = Misses-append _ _ m17 track-Misses in
      let m19 = Misses-append _ _ m18 (number e.course_deg) in
      let m20 = Misses-append _ _ m19 speed-Misses in
      let m21 = Misses-append _ _ m20 (number e.speed_mps) in
      let m22 = Misses-append _ _ m21 correlation-Misses in
      let m23 =
        Misses-append _ _ m22
          (plain-Misses (fmt.show_uuid e.correlation_id) (plain.uuid_plain e.correlation_id)) in
      HasEnd-append _ _ m23 closing-HasEnd

  -- An event as it is sent is a frame, where it fits the limit and the XML library reads it without error.
  pub to_xml-IsFrame :
      (xml : XmlLibrary) (limit : ℕ) (e : PositionEvent fmt)
      → length (to_xml fmt e) ≤ limit
      → validate_xml xml (to_xml fmt e) ≡ ok tt
      → IsFrame xml limit (to_xml fmt e)
  unfolding to_xml starts_with
  to_xml-IsFrame xml limit e fits valid =
      let end = to_xml-HasEnd e in
      record {
        begins = refl;
        body = end.body;
        ends = end.found;
        whole = end.whole;
        fits = fits;
        valid = valid;
      }
