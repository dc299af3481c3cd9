-- ===== src/Targets/Upsert/Laws.antt =====
-- What Upsert does to the records: the stored one is found, the others stay, and names stay distinct.
use rain_scanner.Base.{
  ◌≡◌, ◌≢◌, refl, sym, ap, ◌∙◌, subst, false, true, List, [], ◌∷◌, ◌++◌, Option, none, some, Text,
  to_lower, trim_space, is_empty, ok, arith, Bool-cases, Option-cases, inl, inr,
}
use rain_scanner.IpRange.Netip.{Netip}
use rain_scanner.Storage.{Store}
use rain_scanner.Targets.{Record, Registry, index_from, index_of, get}
use rain_scanner.Targets.Names.{trim_space_idem}
use rain_scanner.Targets.Lookup.{
  lookup, lookup_fold, lookup_found, get_lem, index_from_found, lookup-set, lookup-set_other,
  lookup-append, lookup-append_new, lookup-append_other, Distinct, Distinct-set, Distinct-append,
}
use rain_scanner.Targets.Upsert.{merged, place, bad_api, cleaned, unhide, put_record, upsert}

-- What a placement guarantees of the records, for a record whose name is trimmed.
pub record IsPlaced (rs : List Record) (rec : Record) (new : Record × List Record) : Type 0 where
  pub named : new.0.name ≡ rec.name
  pub found : lookup new.1 rec.name ≡ some new.0
  pub others : (m : Text) → to_lower m ≢ to_lower rec.name → lookup new.1 m ≡ lookup rs m
  pub distinct : Distinct rs → Distinct new.1

place_lem :
    (rs : List Record) (rec : Record)
    → trim_space rec.name ≡ rec.name
    → IsPlaced rs rec (place rs rec)
unfolding place index_of
place_lem rs rec trimmed = elim (Option-cases (index_from rs (trim_space rec.name))) [
  | inl h ↦
      let h' = rw trimmed at h in
      rw h (record {
        named = refl;
        found = lookup-append rs rec.name rec h' refl;
        others = λ m apart. lookup-append_other rs rec.name m rec refl apart;
        distinct = λ d. Distinct-append rs rec.name rec h' refl d;
      })
  | inr (i, h) ↦
      let (old, at_i, _) = index_from_found rs (trim_space rec.name) i h in
      let h' = rw trimmed at h in
      rw h (
        rw at_i (record {
          named = refl;
          found = lookup-set rs rec.name i (merged rec old) h' refl;
          others = λ m apart. lookup-set_other rs rec.name m i (merged rec old) h' refl apart;
          distinct = λ d. Distinct-set rs rec.name i (merged rec old) h' refl d;
        }))
]

place-missing :
    (rs : List Record) (rec : Record)
    → lookup rs (trim_space rec.name) ≡ none
    → place rs rec ≡ (rec, rs ++ rec ∷ [])
unfolding place
place-missing rs rec missing = elim (Option-cases (index_of rs rec.name)) [
  | inl e ↦ rw e refl
  | inr (i, e) ↦
      let (old, at_i, _) = index_from_found rs (trim_space rec.name) i (unfold index_of in e) in
      cc (rw (lookup_found rs rec.name i e, at_i) at missing)
]

module _ (store : Store) (np : Netip) (scheme_of : Text → Option Text) where
  open store use {State}

  recs-unhide :
      (r : Registry) (d : State) (rec : Record)
      → (unhide store np scheme_of r d rec).0.recs ≡ r.recs
  unfolding unhide
  recs-unhide r d rec = ground arith

  -- Everything that Upsert guarantees once it has accepted a record.
  abbrev Stored : List Record → Text → Registry → Record → Type 0
  Stored rs name r' rec =
      (lookup r'.recs name ≡ some rec)
      × ((m : Text) → to_lower m ≢ to_lower name → lookup r'.recs m ≡ lookup rs m)
      × (Distinct rs → Distinct r'.recs)

  put_record_lem :
      (r : Registry) (d : State) (rec rec' : Record)
      → trim_space rec.name ≡ rec.name
      → (put_record store np scheme_of r d rec).result ≡ ok rec'
      → Stored r.recs rec.name (put_record store np scheme_of r d rec).registry rec'
  unfolding put_record
  put_record_lem r d rec rec' trimmed h =
      let p = place_lem r.recs rec trimmed in
      let same : (place r.recs rec).0 ≡ rec' = ground arith in
      (p.found ∙ ap some same, p.others, p.distinct)

  upsert-Stored :
      (r : Registry) (d : State) (rec rec' : Record)
      → (upsert store np scheme_of r d rec).result ≡ ok rec'
      → Stored r.recs (trim_space rec.name) (upsert store np scheme_of r d rec).registry rec'
  unfolding upsert
  upsert-Stored r d rec rec' h = elim (Bool-cases (is_empty (trim_space rec.name))) [
    | inl empty ↦ cc (rw empty at h)
    | inr named ↦ elim (Bool-cases (bad_api scheme_of rec.api_url)) [
      | inl bad ↦ cc (rw (named, bad) at h)
      | inr good ↦
          let c = cleaned store np scheme_of r rec in
          let u = unhide store np scheme_of r d c in
          elim (Bool-cases u.2) [
            | inl shown ↦
                rw (named, good, shown)
                  (subst
                    (λ rs. Stored rs c.name (put_record store np scheme_of u.0 u.1 c).registry rec')
                    (recs-unhide r d c)
                    (put_record_lem u.0 u.1 c rec' (trim_space_idem rec.name)
                      (rw (named, good, shown) at h)))
            | inr failed ↦ cc (rw (named, good, failed) at h)
          ]
    ]
  ]

  -- A target that Upsert stores is found again under the name that was given, trimmed or not and in any case of
  -- letters.
  pub get-upsert :
      (r : Registry) (d : State) (rec rec' : Record) (name : Text)
      → (upsert store np scheme_of r d rec).result ≡ ok rec'
      → to_lower (trim_space name) ≡ to_lower (trim_space rec.name)
      → get (upsert store np scheme_of r d rec).registry name ≡ some rec'
  get-upsert r d rec rec' name h same =
      let r' = (upsert store np scheme_of r d rec).registry in
      get_lem r' name
      ∙ lookup_fold r'.recs (trim_space name) (trim_space rec.name) same
      ∙ (upsert-Stored r d rec rec' h).0

  put_record-missing :
      (r : Registry) (d : State) (rec : Record)
      → lookup r.recs (trim_space rec.name) ≡ none
      → (put_record store np scheme_of r d rec).registry.recs ≡ r.recs ++ rec ∷ []
  unfolding put_record
  put_record-missing r d rec missing = ap (λ p. p.1) (place-missing r.recs rec missing)

  -- A new target with a usable name and URL is found as it was cleaned, whether or not its file could be written, if
  -- the name could be taken off the hidden ones.
  pub get-upsert_new :
      (r : Registry) (d : State) (rec : Record)
      → is_empty (trim_space rec.name) ≡ false
      → bad_api scheme_of rec.api_url ≡ false
      → get r rec.name ≡ none
      → (unhide store np scheme_of r d (cleaned store np scheme_of r rec)).2 ≡ true
      → get (upsert store np scheme_of r d rec).registry rec.name
        ≡ some (cleaned store np scheme_of r rec)
  unfolding upsert
  get-upsert_new r d rec named good missing shown =
      let c = cleaned store np scheme_of r rec in
      let u = unhide store np scheme_of r d c in
      let n = trim_space rec.name in
      let absent : lookup u.0.recs n ≡ none =
        ap (λ rs. lookup rs n) (recs-unhide r d c) ∙ sym (get_lem r rec.name) ∙ missing in
      let absent' : lookup u.0.recs (trim_space n) ≡ none =
        ap (λ m. lookup u.0.recs m) (trim_space_idem rec.name) ∙ absent in
      rw (named, good, shown)
        (get_lem (put_record store np scheme_of u.0 u.1 c).registry rec.name
          ∙ ap (λ rs. lookup rs n) (put_record-missing u.0 u.1 c absent')
          ∙ lookup-append_new u.0.recs n c absent refl)

  -- It leaves every other target as it was.
  pub get-upsert_other :
      (r : Registry) (d : State) (rec rec' : Record) (name : Text)
      → (upsert store np scheme_of r d rec).result ≡ ok rec'
      → to_lower (trim_space name) ≢ to_lower (trim_space rec.name)
      → get (upsert store np scheme_of r d rec).registry name ≡ get r name
  get-upsert_other r d rec rec' name h apart =
      get_lem (upsert store np scheme_of r d rec).registry name
      ∙ (upsert-Stored r d rec rec' h).1 (trim_space name) apart
      ∙ sym (get_lem r name)

  -- In a registry whose names are distinct, letter case aside, they still are after a successful Upsert.
  pub upsert-Distinct :
      (r : Registry) (d : State) (rec rec' : Record)
      → Distinct r.recs
      → (upsert store np scheme_of r d rec).result ≡ ok rec'
      → Distinct (upsert store np scheme_of r d rec).registry.recs
  upsert-Distinct r d rec rec' distinct h = (upsert-Stored r d rec rec' h).2 distinct
