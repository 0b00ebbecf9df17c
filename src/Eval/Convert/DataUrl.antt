-- ===== src/Eval/Convert/DataUrl.antt =====
-- The string operations that the conversions take data URLs apart with, and the URL that they print.
use Prim.Native.Char.{code}
use agent_rl.Common.{
  ℕ, zero, suc, ◌≡◌, refl, Bool, true, false, ◌||◌, Option, none, some, String, string_eq, beq,
  beq_iff, ◌==◌, if◌then◌else◌, Bool-cases, inl, inr, arith,
}
use agent_rl.Eval.Convert.{is_empty}

-- `s.split(c, maxsplit=1)[0]`
unfoldable pub before : ℕ → String → String
before c String.[] = String.[]
before c (String.◌∷◌ h s) =
    let rest = before c s in if code h == c then String.[] else String.◌∷◌ h rest

-- `s.split(c, maxsplit=1)[1]`; `none` is an IndexError
unfoldable pub after : ℕ → String → Option String
after c String.[] = none
after c (String.◌∷◌ h s) = let rest = after c s in if code h == c then some s else rest

-- `s[n:]`
unfoldable pub skip : ℕ → String → String
skip zero s = s
skip (suc n) String.[] = String.[]
skip (suc n) (String.◌∷◌ h s) = skip n s

-- `s.startswith(p)`
unfoldable pub starts_with : String → String → Bool
starts_with String.[] s = true
starts_with (String.◌∷◌ c p) String.[] = false
starts_with (String.◌∷◌ c p) (String.◌∷◌ h s) =
    let rest = starts_with p s in if code c == code h then rest else false

abbrev pub is_supported : String → Bool
is_supported mt =
    beq mt "image/jpeg" || beq mt "image/png" || beq mt "image/gif" || beq mt "image/webp"

-- Concatenation, which computes on a text that is known
abbrev pub append : String → String → String
append String.[] t = t
append (String.◌∷◌ c s) t = String.◌∷◌ c (append s t)

-- f'data:{media_type};base64,{data}'
unfoldable pub data_url : String → String → String
data_url media_type text = append "data:" (append media_type (append ";base64," text))

unfoldable pub media_type_of : String → String
media_type_of url = skip 5 (before b';' url)

-- A supported media type is one of four.
supported_cases :
    (mt : String)
    → is_supported mt ≡ true
    → (P : String → Type 0) → P "image/jpeg"
    → P "image/png"
    → P "image/gif"
    → P "image/webp"
    → P mt
supported_cases mt e P jpeg png gif webp = elim (Bool-cases (beq mt "image/jpeg")) [
  | inl q ↦ rw ((beq_iff mt "image/jpeg").0 q) jpeg
  | inr n ↦ elim (Bool-cases (beq mt "image/png")) [
    | inl q ↦ rw ((beq_iff mt "image/png").0 q) png
    | inr m ↦ elim (Bool-cases (beq mt "image/gif")) [
      | inl q ↦ rw ((beq_iff mt "image/gif").0 q) gif
      | inr k ↦ rw ((beq_iff mt "image/webp").0 (ground (arith, e, n, m, k))) webp
    ]
  ]
]

-- A printed data URL is read back.
abbrev pub ReadsBack : String → Type 0
ReadsBack mt =
    (text : String)
    → (starts_with "data:" (data_url mt text) ≡ true)
      × (media_type_of (data_url mt text) ≡ mt)
      × (after b',' (data_url mt text) ≡ some text)
      × (is_empty (data_url mt text) ≡ false)

pub supported-ReadsBack : (mt : String) → is_supported mt ≡ true → ReadsBack mt
unfolding data_url media_type_of before after skip starts_with
supported-ReadsBack mt e =
    supported_cases mt e ReadsBack (λ text. (refl, refl, refl, refl))
      (λ text. (refl, refl, refl, refl)) (λ text. (refl, refl, refl, refl))
      (λ text. (refl, refl, refl, refl))
