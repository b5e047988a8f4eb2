-- ===== src/Storage/Identity/Distinct.antt =====
-- The identifiers of pkg/storage/store.go and the records they stand for.
use relaymesh.Prelude.{◌≡◌, ◌≢◌, ◌↔◌, refl, sym, ap, List, [], ◌∷◌, ◌++◌, map, All}
use relaymesh.Prelude.Text.{Text, trim_space}
use relaymesh.Storage.Records.{InstallRecord, NamespaceRecord}
use relaymesh.Storage.Identity.{hashed_parts, hash_id, namespace_record_id, install_record_id}

abbrev pub NoColon : Text → Type 0
NoColon t = All (λ ch. ch ≢ b':') t

-- Two texts that hash to the same are the same.
abbrev pub IsCollisionFree : (Text → Text) → Type 0
IsCollisionFree sha256_hex = (a b : Text) → sha256_hex a ≡ sha256_hex b → a ≡ b

-- A text is cut at its first colon in one way.
cut : (a b s t : Text) → NoColon a → NoColon b → a ++ b':' ∷ s ≡ b ++ b':' ∷ t → (a ≡ b) × (s ≡ t)
cut [] [] s t ha hb h = (refl, cc)
cut [] (y ∷ b) s t ha hb h = absurd (hb.0 (cc h))
cut (x ∷ a) [] s t ha hb h = absurd (ha.0 (cc h))
cut (x ∷ a) (y ∷ b) s t ha hb h =
    let heads : x ≡ y = cc in
    let tails : a ++ b':' ∷ s ≡ b ++ b':' ∷ t = cc in
    let (rest, left) = cut a b s t ha.1 hb.1 tails in (cc, left)

not_ended : (a s : Text) → a ++ b':' ∷ s ≢ []
not_ended [] s h = absurd (cc h)
not_ended (x ∷ a) s h = absurd (cc h)

hashed_parts_injective :
    (ps qs : List Text)
    → All (λ p. NoColon (trim_space p)) ps
    → All (λ p. NoColon (trim_space p)) qs
    → hashed_parts ps ≡ hashed_parts qs
    → map trim_space ps ≡ map trim_space qs
unfolding hashed_parts
hashed_parts_injective [] [] hp hq h = refl
hashed_parts_injective [] (q ∷ qs) hp hq h =
    absurd (not_ended (trim_space q) (hashed_parts qs) (sym h))
hashed_parts_injective (p ∷ ps) [] hp hq h = absurd (not_ended (trim_space p) (hashed_parts ps) h)
hashed_parts_injective (p ∷ ps) (q ∷ qs) hp hq h =
    let (first, others) =
      cut (trim_space p) (trim_space q) (hashed_parts ps) (hashed_parts qs) hp.0 hq.0 h in
    let rest = hashed_parts_injective ps qs hp.1 hq.1 others in cc

-- The parts of a namespace that its identifier is made from.
abbrev pub namespace_parts : NamespaceRecord → List Text
namespace_parts r = r.tenant_id ∷ r.provider ∷ r.provider_instance_key ∷ r.repo_id ∷ []

abbrev pub install_parts : InstallRecord → List Text
install_parts r = r.tenant_id ∷ r.provider ∷ r.account_id ∷ r.installation_id ∷ []

-- Parts that have no colon once they are trimmed.
abbrev pub Plain : List Text → Type 0
Plain parts = All (λ p. NoColon (trim_space p)) parts

hashed_parts_trimmed :
    (ps qs : List Text) → map trim_space ps ≡ map trim_space qs → hashed_parts ps ≡ hashed_parts qs
unfolding hashed_parts
hashed_parts_trimmed [] [] h = refl
hashed_parts_trimmed [] (q ∷ qs) h = absurd (cc h)
hashed_parts_trimmed (p ∷ ps) [] h = absurd (cc h)
hashed_parts_trimmed (p ∷ ps) (q ∷ qs) h =
    let first : trim_space p ≡ trim_space q = cc in
    let others : map trim_space ps ≡ map trim_space qs = cc in
    rw (first, hashed_parts_trimmed ps qs others) refl

module _ (sha256_hex : Text → Text) (free : IsCollisionFree sha256_hex) where
  hash_id_iff :
      (ps qs : List Text)
      → Plain ps
      → Plain qs
      → (hash_id sha256_hex ps ≡ hash_id sha256_hex qs) ↔ (map trim_space ps ≡ map trim_space qs)
  unfolding hash_id
  hash_id_iff ps qs hp hq = (
    (λ h. hashed_parts_injective ps qs hp hq (free _ _ h)),
    λ h. ap sha256_hex (hashed_parts_trimmed ps qs h),
  )

-- If the hash has no collisions, and no part has a colon once it is trimmed, two namespaces have one
-- identifier exactly if their tenants, providers, instance keys and repository ids are the same up
-- to spaces around them.
pub namespace_record_id_distinct :
    (sha256_hex : Text → Text) (r s : NamespaceRecord)
    → IsCollisionFree sha256_hex
    → Plain (namespace_parts r)
    → Plain (namespace_parts s)
    → (namespace_record_id sha256_hex r ≡ namespace_record_id sha256_hex s)
      ↔ (map trim_space (namespace_parts r) ≡ map trim_space (namespace_parts s))
unfolding namespace_record_id
namespace_record_id_distinct sha256_hex r s free =
    hash_id_iff sha256_hex free (namespace_parts r) (namespace_parts s)

-- If the hash has no collisions, and no part has a colon once it is trimmed, two installations have
-- one identifier exactly if their tenants, providers, account ids and installation ids are the same
-- up to spaces around them.
pub install_record_id_distinct :
    (sha256_hex : Text → Text) (r s : InstallRecord)
    → IsCollisionFree sha256_hex
    → Plain (install_parts r)
    → Plain (install_parts s)
    → (install_record_id sha256_hex r ≡ install_record_id sha256_hex s)
      ↔ (map trim_space (install_parts r) ≡ map trim_space (install_parts s))
unfolding install_record_id
install_record_id_distinct sha256_hex r s free =
    hash_id_iff sha256_hex free (install_parts r) (install_parts s)
