-- ===== src/Creation/Entities.antt =====
-- What the public vocabulary of sdks/typescript/src/index.ts and `cleanEvidenceEntity` let through.
use veritio.Prelude.{
  ◌≡◌, refl, String, Option, none, some, List, [], ◌∷◌, true, not, any, ◌===◌, ===_iff, Bool-cases,
  inl, inr, Any,
}
use veritio.Prelude.Text.{is_blank, is_empty}
use veritio.Prelude.Results.{ok, require-eq-ok, ok-injective}
use veritio.Protocol.{EvidenceEntity, truthy}
use veritio.Creation.{
  CreationError, evidence_entity_types, evidence_edge_relations, is_evidence_entity_type,
  is_evidence_edge_relation, clean_evidence_entity,
}

-- An optional text of the input and of what is kept: an empty text is left out.
pub data Keeps : Option String → Option String → Type 0 where
  absent : Keeps none none
  empty : Keeps (some "") none
  filled : (s : String) → ¬ (s ≡ "") → Keeps (some s) (some s)

-- An end of an edge, and the input that it comes from.
pub record IsEntityOf (input e : EvidenceEntity) : Type 0 where
  pub known : Any (λ t. t ≡ e.type) evidence_entity_types
  pub same_type : e.type ≡ input.type
  pub same_id : e.id ≡ input.id
  pub named : not (is_blank e.id) ≡ true
  pub actor_type : Keeps input.actor_type e.actor_type
  pub resource_type : Keeps input.resource_type e.resource_type
  pub version : Keeps input.version e.version
  pub path_hash : Keeps input.path_hash e.path_hash

any-Any : (xs : List String) (x : String) → any (λ y. y === x) xs ≡ true → Any (λ y. y ≡ x) xs
any-Any [] x h = cc
any-Any (y ∷ ys) x h = elim (Bool-cases (y === x)) [
  | inl here ↦ inl ((===_iff y x).0 here)
  | inr apart ↦ inr (any-Any ys x (rw apart at h))
]

pub relation-known :
    (relation : String)
    → is_evidence_edge_relation relation ≡ true
    → Any (λ r. r ≡ relation) evidence_edge_relations
unfolding is_evidence_edge_relation
relation-known relation h = any-Any evidence_edge_relations relation h

is_empty-cases : (s : String) → is_empty s ≡ true → s ≡ ""
unfolding is_empty
is_empty-cases String.[] h = refl
is_empty-cases (String.◌∷◌ c s) h = cc

truthy-Keeps : (o : Option String) → Keeps o (truthy o)
unfolding truthy is_empty
truthy-Keeps none = Keeps.absent
truthy-Keeps (some String.[]) = Keeps.empty
truthy-Keeps (some (String.◌∷◌ c s)) = Keeps.filled (String.◌∷◌ c s) (λ same. cc)

pub clean-IsEntityOf :
    (input e : EvidenceEntity) → clean_evidence_entity input ≡ ok e → IsEntityOf input e
unfolding clean_evidence_entity is_evidence_entity_type
clean-IsEntityOf input e h =
    let (typed, h1) = require-eq-ok (not (is_blank input.type)) CreationError.type_required _ h in
    let (named, h2) = require-eq-ok (not (is_blank input.id)) CreationError.id_required _ h1 in
    let (known, h3) =
      require-eq-ok (is_evidence_entity_type input.type) CreationError.unsupported_entity_type _
        h2 in
    rw (← ok-injective h3) (record {
      known = any-Any evidence_entity_types input.type known;
      same_type = refl;
      same_id = refl;
      named = named;
      actor_type = truthy-Keeps input.actor_type;
      resource_type = truthy-Keeps input.resource_type;
      version = truthy-Keeps input.version;
      path_hash = truthy-Keeps input.path_hash;
    })
