-- ===== src/Kyt/Guarded.antt =====
-- privacy/kyt/kyt-inspect-fetch-guard.ts: what a caller of the guarded `fetch` gets.
use pl_backend_sdk_demo.Prelude.{
  ℕ, zero, suc, ◌≤◌, Bool, true, false, ◌&&◌, ◌||◌, ◌==◌, ◌≡◌, refl, sym, ap, ◌∙◌, List, [], ◌∷◌,
  map, take, length, trim_start, starts_with, All, Among, first, later, ◌⊎◌, inl, inr, Text, codes,
  includes, text_eq, Bool-cases, ok, Exec, pos, arith,
}
use pl_backend_sdk_demo.Json.{Json, num, obj, get}
use pl_backend_sdk_demo.Kyt.{
  kyt_inspect_path, lower, is_non_json_document, InspectResponse, received, built, safe_status,
  document_body, build_document_as_json_response, guarded, guarded_fetch,
}

abbrev field_in : Text → Json → Json
field_in k (obj t) = get k t
field_in k _ = Json.undef

-- The text after its white space, its letters A to Z made small.
abbrev pub opening : Text → Text
opening text = map lower (trim_start text)

abbrev pub heads : List Text
heads = codes "<?xml" ∷ codes "<!doctype" ∷ codes "<html" ∷ codes "<error" ∷ []

-- Some head, and no head, opens the text.
abbrev pub OpensAs : List Text → Text → Type 0
OpensAs heads s = (h : Text) × Among h heads × (starts_with s h ≡ true)

abbrev pub OpensAsNone : List Text → Text → Type 0
OpensAsNone heads s = All (λ h. starts_with s h ≡ false) heads

-- What the guard makes of a response to an address.
pub record IsGuarded (url : Text) (status : ℕ) (text : Text) (r : InspectResponse) : Type 0 where
  pub outcome :
      ((r ≡ received status text)
        × ((includes url kyt_inspect_path ≡ false) ⊎ OpensAsNone heads (opening text)))
      ⊎ ((code : ℕ) × (body : Json) × (r ≡ built code body)
          × (400 ≤ code)
          × (field_in (codes "statusCode") body ≡ num (pos code))
          × (includes url kyt_inspect_path ≡ true)
          × OpensAs heads (opening text))

-- The first characters decide how a text begins.
starts_with-take :
    (n : ℕ) (s h : Text)
    → length h ≤ n
    → starts_with (map lower (take n s)) h ≡ starts_with (map lower s) h
unfolding starts_with
starts_with-take n s [] b = refl
starts_with-take zero s (d ∷ h) b = absurd (omega arith)
starts_with-take (suc n) [] (d ∷ h) b = refl
starts_with-take (suc n) (c ∷ s) (d ∷ h) b =
    ap (λ x. (lower c == d) && x) (starts_with-take n s h (omega arith))

is_opened : (text : Text) → Bool
is_opened text =
    starts_with (opening text) (codes "<?xml")
    || starts_with (opening text) (codes "<!doctype")
    || starts_with (opening text) (codes "<html")
    || starts_with (opening text) (codes "<error")

is_non_json_document_lem : (text : Text) → is_non_json_document text ≡ is_opened text
unfolding is_non_json_document is_opened
is_non_json_document_lem text =
    let s = trim_start text in
    rw (starts_with-take 64 s (codes "<?xml") (omega arith)) (
      rw (starts_with-take 64 s (codes "<!doctype") (omega arith)) (
        rw (starts_with-take 64 s (codes "<html") (omega arith))
          (rw (starts_with-take 64 s (codes "<error") (omega arith)) refl)))

opened : (text : Text) → is_non_json_document text ≡ true → OpensAs heads (opening text)
unfolding is_opened
opened text e = elim (Bool-cases (starts_with (opening text) (codes "<?xml"))) [
  | inl xml ↦ (codes "<?xml", first, xml)
  | inr not_xml ↦ elim (Bool-cases (starts_with (opening text) (codes "<!doctype"))) [
    | inl doctype ↦ (codes "<!doctype", later first, doctype)
    | inr not_doctype ↦ elim (Bool-cases (starts_with (opening text) (codes "<html"))) [
      | inl html ↦ (codes "<html", later (later first), html)
      | inr not_html ↦
          let whole = sym (is_non_json_document_lem text) ∙ e in
          (codes "<error", later (later (later first)), ground (arith, whole))
    ]
  ]
]

not_opened : (text : Text) → is_non_json_document text ≡ false → OpensAsNone heads (opening text)
unfolding is_opened
not_opened text e =
    let whole = sym (is_non_json_document_lem text) ∙ e in
    (
      ground (arith, whole),
      (ground (arith, whole), (ground (arith, whole), (ground (arith, whole), tt))),
    )

guarded-IsGuarded :
    (url : Text) (status : ℕ) (text : Text) → IsGuarded url status text (guarded url status text)
unfolding build_document_as_json_response get text_eq
guarded-IsGuarded url status text = elim (Bool-cases (includes url kyt_inspect_path)) [
  | inr other ↦ record { outcome = inl (rw other refl, inl other) }
  | inl inspect ↦ elim (Bool-cases (is_non_json_document text)) [
    | inr json ↦ record { outcome = inl (rw (inspect, json) refl, inr (not_opened text json)) }
    | inl document ↦ record {
      outcome = inr (
        safe_status status,
        document_body status url text,
        rw (inspect, document) refl,
        ground arith,
        refl,
        inspect,
        opened text document,
      );
    }
  ]
]

-- Where the inner `fetch` answers: a response comes through unchanged if its address is no
-- inspection's, or if its text, after white space and without regard to case, begins with none of
-- `<?xml`, `<!doctype`, `<html` and `<error`; an inspection's text that begins with one of them is an
-- error of status 400 or more, in JSON that says that status.
pub guarded_fetch-IsGuarded :
    (W : Type 0) (inner : Text → Exec W (ℕ × Text)) (url : Text) (s t : W) (status : ℕ)
    (text : Text)
    → inner url s ≡ (ok (status, text), t)
    → (r : InspectResponse) × (guarded_fetch inner url s ≡ (ok r, t)) × IsGuarded url status text r
unfolding guarded_fetch
guarded_fetch-IsGuarded W inner url s t status text e =
    (guarded url status text, rw e refl, guarded-IsGuarded url status text)
