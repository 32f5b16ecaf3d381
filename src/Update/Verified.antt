-- ===== src/Update/Verified.antt =====
-- What verified checksums say of the artifacts (`verifyChecksums` of updater.go).
use rknno_vpn.Prelude.{
  ◌≢◌, ◌≡◌, refl, sym, ap, ◌∙◌, inl, inr, ◌⊎◌, String, Bool, true, false, List, [], ◌∷◌, ◌++◌,
  Option, none, some, if◌then◌else◌, is_nil, concat, CaseMap, equal_fold, split_at, trim_space,
  Bool-cases,
}
use rknno_vpn.Update.Checksums.{
  artifact_name, Artifact, module_zip, panel_apk, Stat, present, absent, stat_failed, Hashed,
  hashed, hash_failed, Downloads, Required, required_of, mark, Verifying, ongoing, refused,
  and_verify, required_artifacts, require_stat, missing_of, parse_lines, compare_hash, is_marked,
  check_present, check_entry, check_entries, missing_names, nothing_required, verdict,
  verify_checksums,
}

-- The hashes that some entries give for an artifact.
pub hashes_of : Artifact → List (Artifact × String) → List String
hashes_of x [] = []
hashes_of module_zip ((module_zip, e) ∷ entries) = e ∷ hashes_of module_zip entries
hashes_of module_zip ((panel_apk, e) ∷ entries) = hashes_of module_zip entries
hashes_of panel_apk ((module_zip, e) ∷ entries) = hashes_of panel_apk entries
hashes_of panel_apk ((panel_apk, e) ∷ entries) = e ∷ hashes_of panel_apk entries

-- One hash is given, and it is that of the file.
pub record HasHash (c : CaseMap) (d : Downloads) (x : Artifact) (given : List String) : Type 0 where
  pub expected : String
  pub actual : String
  pub given_is : given ≡ expected ∷ []
  pub hash_is : d.hash x ≡ hashed actual
  pub same : equal_fold c actual expected ≡ true

required_of-mark : (x : Artifact) (b : Bool) (m : Required) → required_of x (mark x b m) ≡ some b
required_of-mark module_zip b m = refl
required_of-mark panel_apk b m = refl

ongoing_inj : {m n : Required} → ongoing m ≡ ongoing n → m ≡ n
ongoing_inj e = cc e

marks :
    (o : Option Bool) (b : Bool) (m n : Required)
    → o ≡ some b
    → elim o [ none ↦ ongoing m | some b' ↦ ongoing n ] ≡ ongoing n
marks none b m n e = absurd (cc e)
marks (some b') b m n e = refl

module _ (c : CaseMap) (d : Downloads) (x : Artifact) (here : d.stat x ≡ present) where
  -- What some entries do to the mark of an artifact.
  abbrev Marked : Bool → List String → Bool → Type 0
  Marked b given b' = ((b ≡ b') × (given ≡ [])) ⊎ ((b ≡ false) × (b' ≡ true) × HasHash c d x given)

  -- A turn for the artifact itself: it was not marked, its hash is right, and it is marked.
  compared :
      (h : Hashed) (e : String) (m m' : Required) (b : Bool)
      → d.hash x ≡ h
      → required_of x m ≡ some b
      → compare_hash c x e h m ≡ ongoing m'
      → (required_of x m' ≡ some true) × HasHash c d x (e ∷ [])
  compared (hash_failed t) e m m' b q r o = absurd (cc o)
  compared (hashed t) e m m' b q r o = elim (Bool-cases (equal_fold c t e)) [
    | inr f ↦ absurd (cc (rw f at o))
    | inl f ↦
        let o' = rw f at o in
        let is_mark = ongoing_inj (sym (marks _ b m (mark x true m) r) ∙ o') in
        (
          ap (required_of x) (sym is_mark) ∙ required_of-mark x true m,
          record { expected = e; actual = t; given_is = refl; hash_is = q; same = f },
        )
  ]

  checked_entry :
      (s : Stat) (e : String) (m m' : Required) (b : Bool)
      → s ≡ present
      → required_of x m ≡ some b
      → check_present c d s x e m ≡ ongoing m'
      → (b ≡ false) × (required_of x m' ≡ some true) × HasHash c d x (e ∷ [])
  checked_entry absent e m m' b h r o = absurd (cc h)
  checked_entry (stat_failed t) e m m' b h r o = absurd (cc h)
  checked_entry present e m m' true h r o = absurd (cc (rw r at o))
  checked_entry present e m m' false h r o =
      let (k, l) = compared (d.hash x) e m m' false refl r (rw r at o) in (refl, k, l)

-- A turn marks the artifact of its entry, or changes nothing.
marked_entry :
    (o : Option Bool) (m n m' : Required)
    → elim o [ none ↦ ongoing m | some b ↦ ongoing n ] ≡ ongoing m'
    → (m' ≡ m) ⊎ (m' ≡ n)
marked_entry none m n m' o = inl (sym (ongoing_inj o))
marked_entry (some b) m n m' o = inr (sym (ongoing_inj o))

compared_entry :
    (c : CaseMap) (a : Artifact) (h : Hashed) (e : String) (m m' : Required)
    → compare_hash c a e h m ≡ ongoing m'
    → (m' ≡ m) ⊎ (m' ≡ mark a true m)
compared_entry c a (hash_failed t) e m m' o = absurd (cc o)
compared_entry c a (hashed t) e m m' o = elim (Bool-cases (equal_fold c t e)) [
  | inr f ↦ absurd (cc (rw f at o))
  | inl f ↦ marked_entry (required_of a m) m (mark a true m) m' (rw f at o)
]

found_entry :
    (c : CaseMap) (a : Artifact) (h : Hashed) (e : String) (m m' : Required)
    → (if is_marked (required_of a m)
        then refused (concat (artifact_name a) ": duplicate checksum entry")
        else compare_hash c a e h m)
      ≡ ongoing m'
    → (m' ≡ m) ⊎ (m' ≡ mark a true m)
found_entry c a h e m m' o = elim (Bool-cases (is_marked (required_of a m))) [
  | inl f ↦ absurd (cc (rw f at o))
  | inr f ↦ compared_entry c a h e m m' (rw f at o)
]

entry_effect :
    (c : CaseMap) (d : Downloads) (s : Stat) (a : Artifact) (e : String) (m m' : Required)
    → check_present c d s a e m ≡ ongoing m'
    → (m' ≡ m) ⊎ (m' ≡ mark a true m)
entry_effect c d absent a e m m' o = inl (sym (ongoing_inj o))
entry_effect c d present a e m m' o = found_entry c a (d.hash a) e m m' o
entry_effect c d (stat_failed t) a e m m' o = found_entry c a (d.hash a) e m m' o

other_entry :
    (x a : Artifact) (m m' : Required)
    → ((n : Required) → required_of x (mark a true n) ≡ required_of x n)
    → (m' ≡ m) ⊎ (m' ≡ mark a true m)
    → required_of x m' ≡ required_of x m
other_entry x a m m' h (inl e) = ap (required_of x) e
other_entry x a m m' h (inr e) = ap (required_of x) e ∙ h m

and_verify_inv :
    (v : Verifying) (k : Required → Verifying) (m' : Required)
    → and_verify v k ≡ ongoing m'
    → (m : Required) × (v ≡ ongoing m) × (k m ≡ ongoing m')
and_verify_inv (ongoing m) k m' o = (m, refl, o)
and_verify_inv (refused e) k m' o = absurd (cc o)

module _ (c : CaseMap) (d : Downloads) where
  -- The entries behind one of another artifact.
  passed_entry :
      (x a : Artifact) (e : String) (m m₁ : Required) (b : Bool)
      → ((n : Required) → required_of x (mark a true n) ≡ required_of x n)
      → check_entry c d (a, e) m ≡ ongoing m₁
      → required_of x m ≡ some b
      → required_of x m₁ ≡ some b
  unfolding check_entry
  passed_entry x a e m m₁ b h o r =
      other_entry x a m m₁ h (entry_effect c d (d.stat a) a e m m₁ o) ∙ r

  -- The entries behind one of the artifact itself.
  joined_entry :
      (x : Artifact) (here : d.stat x ≡ present) (e : String) (rest : List String) (b b' : Bool)
      → b ≡ false
      → HasHash c d x (e ∷ [])
      → Marked c d x here true rest b'
      → Marked c d x here b (e ∷ rest) b'
  joined_entry x here e rest b b' f h (inl (s, t)) = inr (f, sym s, rw t h)
  joined_entry x here e rest b b' f h (inr (s, t, u)) = absurd (cc s)

  checked :
      (x : Artifact) (here : d.stat x ≡ present) (entries : List (Artifact × String))
      (m m' : Required) (b : Bool)
      → required_of x m ≡ some b
      → check_entries c d entries m ≡ ongoing m'
      → (b' : Bool) × (required_of x m' ≡ some b') × Marked c d x here b (hashes_of x entries) b'
  unfolding check_entries check_entry hashes_of
  checked x here [] m m' b r o = (b, ap (required_of x) (sym (ongoing_inj o)) ∙ r, inl (refl, refl))
  checked module_zip here ((module_zip, e) ∷ entries) m m' b r o =
      let (m₁, o₁, o₂) = and_verify_inv _ (check_entries c d entries) m' o in
      let (f, g, h) = checked_entry c d module_zip here _ e m m₁ b here r o₁ in
      let (b', p, q) = checked module_zip here entries m₁ m' true g o₂ in
      (b', p, joined_entry module_zip here e (hashes_of module_zip entries) b b' f h q)
  checked module_zip here ((panel_apk, e) ∷ entries) m m' b r o =
      let (m₁, o₁, o₂) = and_verify_inv _ (check_entries c d entries) m' o in
      checked module_zip here entries m₁ m' b
        (passed_entry module_zip panel_apk e m m₁ b (λ n. refl) o₁ r) o₂
  checked panel_apk here ((module_zip, e) ∷ entries) m m' b r o =
      let (m₁, o₁, o₂) = and_verify_inv _ (check_entries c d entries) m' o in
      checked panel_apk here entries m₁ m' b
        (passed_entry panel_apk module_zip e m m₁ b (λ n. refl) o₁ r) o₂
  checked panel_apk here ((panel_apk, e) ∷ entries) m m' b r o =
      let (m₁, o₁, o₂) = and_verify_inv _ (check_entries c d entries) m' o in
      let (f, g, h) = checked_entry c d panel_apk here _ e m m₁ b here r o₁ in
      let (b', p, q) = checked panel_apk here entries m₁ m' true g o₂ in
      (b', p, joined_entry panel_apk here e (hashes_of panel_apk entries) b b' f h q)

blank_required : Required
blank_required = record { of_module = none; of_panel = none }

required_present :
    (s : Stat) (x : Artifact) (m m' : Required)
    → s ≡ present
    → require_stat s x m ≡ ongoing m'
    → m' ≡ mark x false m
required_present present x m m' h o = sym (ongoing_inj o)
required_present absent x m m' h o = absurd (cc h)
required_present (stat_failed e) x m m' h o = absurd (cc h)

-- The panel is looked up last and does not change what is known of the module.
required_panel :
    (s : Stat) (m m' : Required)
    → require_stat s panel_apk m ≡ ongoing m'
    → m'.of_module ≡ m.of_module
required_panel present m m' o = ap (required_of module_zip) (sym (ongoing_inj o))
required_panel absent m m' o = ap (required_of module_zip) (sym (ongoing_inj o))
required_panel (stat_failed e) m m' o = absurd (cc o)

required_artifact :
    (d : Downloads) (x : Artifact) (m : Required)
    → d.stat x ≡ present
    → required_artifacts d ≡ ongoing m
    → required_of x m ≡ some false
unfolding required_artifacts
required_artifact d module_zip m h o =
    let (m₁, o₁, o₂) = and_verify_inv _ (require_stat (d.stat panel_apk) panel_apk) m o in
    required_panel (d.stat panel_apk) m₁ m o₂
    ∙ ap (required_of module_zip) (required_present (d.stat module_zip) module_zip _ m₁ h o₁)
required_artifact d panel_apk m h o =
    let (m₁, o₁, o₂) = and_verify_inv _ (require_stat (d.stat panel_apk) panel_apk) m o in
    ap (required_of panel_apk) (required_present (d.stat panel_apk) panel_apk m₁ m h o₂)

missing_inv :
    (o p : Option Bool)
    → is_nil (missing_of module_zip o ++ missing_of panel_apk p) ≡ true
    → (o ≢ some false) × (p ≢ some false)
missing_inv (some false) p h = absurd (cc h)
missing_inv none (some false) h = absurd (cc h)
missing_inv (some true) (some false) h = absurd (cc h)
missing_inv none none h = ((λ e. cc e), (λ e. cc e))
missing_inv none (some true) h = ((λ e. cc e), (λ e. cc e))
missing_inv (some true) none h = ((λ e. cc e), (λ e. cc e))
missing_inv (some true) (some true) h = ((λ e. cc e), (λ e. cc e))

none_missing :
    (x : Artifact) (m : Required) → is_nil (missing_names m) ≡ true → required_of x m ≢ some false
unfolding missing_names
none_missing module_zip m h = (missing_inv m.of_module m.of_panel h).0
none_missing panel_apk m h = (missing_inv m.of_module m.of_panel h).1

unless_refused :
    (b : Bool) (e : String) (v : Verifying) (m : Required)
    → (if b then refused e else v) ≡ ongoing m
    → v ≡ ongoing m
unless_refused true e v m o = absurd (cc o)
unless_refused false e v m o = o

-- The mark of an artifact that is not missing was made by its entry.
has_hash :
    (c : CaseMap) (d : Downloads) (x : Artifact) (here : d.stat x ≡ present) (given : List String)
    (b : Bool) (m : Required)
    → required_of x m ≡ some b
    → required_of x m ≢ some false
    → Marked c d x here false given b
    → HasHash c d x given
has_hash c d x here given b m r n (inl (s, t)) = absurd (n (r ∙ ap (λ (u : Bool). some u) (sym s)))
has_hash c d x here given b m r n (inr (s, t, h)) = h

verdict-none :
    (v : Verifying)
    → verdict v ≡ none
    → (m : Required) × (v ≡ ongoing m) × (is_nil (missing_names m) ≡ true)
verdict-none (refused e) h = absurd (cc h)
verdict-none (ongoing m) h = elim (Bool-cases (is_nil (missing_names m))) [
  | inl e ↦ (m, refl, e)
  | inr e ↦ absurd (cc (rw e at h))
]

-- Where the checksums of a download are verified, each artifact that is there has one hash among the
-- lines of the checksums, and that hash is the one of the file, whatever the case of its digits.
pub verify_checksums_lem :
    (c : CaseMap) (d : Downloads) (text : String) (x : Artifact)
    → verify_checksums c d text ≡ none
    → d.stat x ≡ present
    → HasHash c d x (hashes_of x (parse_lines c (split_at 10 (trim_space text))))
unfolding verify_checksums
verify_checksums_lem c d text x ok here =
    let lines = parse_lines c (split_at 10 (trim_space text)) in
    let (m', o, e) = verdict-none _ ok in
    let (m, o₁, o₂) = and_verify_inv (required_artifacts d) _ m' o in
    let o₃ = unless_refused (nothing_required m) _ (check_entries c d lines m) m' o₂ in
    let (b, p, q) = checked c d x here lines m m' false (required_artifact d x m here o₁) o₃ in
    has_hash c d x here (hashes_of x lines) b m' p (none_missing x m' e) q
