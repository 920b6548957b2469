-- ===== src/Tests/Codecs.antt =====
-- Concrete codecs of src/planter_telemetry/cli/records.py, with their laws: an object is a brace and its
-- items, each code point raised by one and each string closed by a zero.
use planter_telemetry.Cli.Records.{Codecs, JsonField, str, Loaded, not_json, object}
use planter_telemetry.Cli.Records.RoundTrip.{CodecLaws, as_fields}
use planter_telemetry.Contract.Reading.{Bytes, LocalTime}
use planter_telemetry.Prelude.Int.{ℤ, pos, negsuc}
use planter_telemetry.Prelude.{
  inr, inl, Bool-cases, ◌==◌, ◌∙◌, if◌then◌else◌, ◌∷◌, [], ◌++◌, List, Text, ℕ, none, some, Option,
  ◌≡◌, refl, map, suc, zero, sym, ap, append_assoc, append-nil,
}

abbrev body : List (Text × Text) → Text
body [] = []
body ((name, value) ∷ rest) = map suc name ++ 0 ∷ (map suc value ++ 0 ∷ body rest)

unfoldable read_items : Option Text → Text → Text → List (Text × JsonField)
read_items o word [] = []
read_items none word (zero ∷ t) = read_items (some word) [] t
read_items (some name) word (zero ∷ t) = (name, str word) ∷ read_items none [] t
read_items o word (suc x ∷ t) = read_items o (word ++ x ∷ []) t

abbrev load : Text → Loaded
load [] = not_json
load (x ∷ t) = object (read_items none [] t)

abbrev print_time : LocalTime → Text
print_time t = elim t.utc_offset [
  | none ↦ t.local ∷ []
  | some (pos n) ↦ t.local ∷ 0 ∷ n ∷ []
  | some (negsuc n) ↦ t.local ∷ 1 ∷ n ∷ []
]

abbrev read_time : Text → Option LocalTime
read_time (t ∷ []) = some (record { local = t; utc_offset = none })
read_time (t ∷ zero ∷ n ∷ []) = some (record { local = t; utc_offset = some (pos n) })
read_time (t ∷ suc k ∷ n ∷ []) = some (record { local = t; utc_offset = some (negsuc n) })
read_time _ = none

-- a payload that begins with 255 is no text
abbrev read_text : Bytes → Option Text
read_text [] = some []
read_text (b ∷ payload) = if b == 255 then none else some (b ∷ payload)

abbrev pub codecs : Codecs
unfolding read_items
codecs = record {
  dumps = λ items. 123 ∷ body items;
  loads = load;
  isoformat = print_time;
  fromisoformat = read_time;
  utf8_decode = read_text;
  utf8_encode = λ s. some s;
  b64encode = λ payload. payload;
  b64decode = λ s. some s;
}

read_items-word :
    (o : Option Text) (word w t : Text)
    → read_items o word (map suc w ++ t) ≡ read_items o (word ++ w) t
unfolding read_items
read_items-word o word [] t = ap (λ v. read_items o v t) (sym (append-nil word))
read_items-word o word (x ∷ w) t =
    read_items-word o (word ++ x ∷ []) w t
    ∙ ap (λ v. read_items o v t) (append_assoc word (x ∷ []) w)

read_items-body :
    (items : List (Text × Text)) (t : Text)
    → read_items none [] t ≡ []
    → read_items none [] (body items ++ t) ≡ as_fields items
unfolding read_items
read_items-body [] t h = h
read_items-body ((name, value) ∷ rest) t h =
    ap (read_items none []) (
      append_assoc (map suc name) (0 ∷ (map suc value ++ 0 ∷ body rest)) t
      ∙ ap (λ v. map suc name ++ 0 ∷ v) (append_assoc (map suc value) (0 ∷ body rest) t))
    ∙ read_items-word none [] name _
    ∙ read_items-word (some name) [] value _
    ∙ ap (λ items. (name, str value) ∷ items) (read_items-body rest t h)

print_time-read : (t : LocalTime) → read_time (print_time t) ≡ some t
print_time-read t = go t.local t.utc_offset
  where
    go :
        (l : ℕ) (o : Option ℤ)
        → read_time (print_time (record { local = l; utc_offset = o }))
          ≡ some (record { local = l; utc_offset = o })
    go l none = refl
    go l (some (pos n)) = refl
    go l (some (negsuc n)) = refl

read_text-same : (payload : Bytes) (s : Text) → read_text payload ≡ some s → some s ≡ some payload
read_text-same [] s h = sym h
read_text-same (b ∷ payload) s h = elim (Bool-cases (b == 255)) [
  | inl e ↦ let bad : none ≡ some s = rw e at h in cc
  | inr e ↦ sym (rw e at h)
]

pub codecs_laws : CodecLaws codecs
unfolding read_items
codecs_laws = record {
  dumps_object = λ items. (body items, refl);
  loads_dumps = λ items d.
      ap (λ t. object (read_items none [] t)) (sym (append-nil (body items)))
      ∙ ap object (read_items-body items [] refl);
  loads_line = λ items d. ap object (read_items-body items (10 ∷ []) refl);
  fromisoformat_isoformat = λ t h. print_time-read t;
  utf8_encode_decode = λ payload s h. read_text-same payload s h;
  b64decode_encode = λ payload h. refl;
}
