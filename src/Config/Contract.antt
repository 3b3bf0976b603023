-- ===== src/Config/Contract.antt =====
-- The manifests that are accepted.
use harness_single.Base.{
  String, true, false, some, List, [], ◌∷◌, ◌≡◌, ◌↔◌, refl, ap, subst, ◌∙◌, arith, mem_text,
  same_option_iff_to, All, ok, RecordFile, missing, unreadable, readable, Option-cases,
  Result-cases, inl, inr, eq_iff,
}
use harness_single.Base.Json.{
  Json, object, Items, nil, cons, Fields, get, as_text, nonempty_text, is_true,
}
use harness_single.Config.Manifest.{
  keys_among, read_config_file, check_entry, check_entries, as_items, load_resource_manifest,
}

-- An entry of the manifest: an object with these two keys alone.
pub record IsEntry (v : Json) (id : String) : Type 0 where
  pub item : Fields
  pub is_object : v ≡ object item
  pub closed : keys_among ("id" ∷ "exclusive" ∷ []) item ≡ true
  pub named : nonempty_text (get "id" item) ≡ some id
  pub exclusive : is_true (get "exclusive" item) ≡ true

-- The entries, with their identifiers in order.
abbrev pub AreEntries : Items → List String → Type 0
AreEntries nil [] = Unit
AreEntries (cons v rest) (id ∷ ids) = IsEntry v id × AreEntries rest ids
AreEntries _ _ = ⊥

-- No identifier occurs twice.
abbrev pub AreDistinct : List String → Type 0
AreDistinct [] = Unit
AreDistinct (id ∷ ids) = (mem_text id ids ≡ false) × AreDistinct ids

pub record IsManifest (file : RecordFile Fields) (ids : List String) : Type 0 where
  pub content : Fields
  pub items : Items
  pub readable_file : file ≡ readable content
  pub closed : keys_among ("schema" ∷ "resources" ∷ []) content ≡ true
  pub schema : as_text (get "schema" content) ≡ some "resource-manifest/v1"
  pub listed : as_items (get "resources" content) ≡ some items
  pub entries : AreEntries items ids
  pub distinct : AreDistinct ids

abbrev AreUnseen : List String → List String → Type 0
AreUnseen seen ids = All (λ id. mem_text id seen ≡ false) ids

check_entry-IsEntry :
    (seen : List String) (v : Json) (id : String)
    → check_entry seen v ≡ ok id
    → IsEntry v id × (mem_text id seen ≡ false)
unfolding check_entry
check_entry-IsEntry seen (object item) id h = elim (Option-cases (nonempty_text (get "id" item))) [
  | inl e ↦ absurd (ground arith)
  | inr (s, e) ↦
      let same : s ≡ id = ground arith in
      (
        record {
          item = item;
          is_object = refl;
          closed = ground arith;
          named = e ∙ ap some same;
          exclusive = ground arith;
        },
        subst (λ t. mem_text t seen ≡ false) same (ground arith),
      )
]
check_entry-IsEntry seen _ id h = absurd (ground arith)

entry_from :
    (seen : List String) (v : Json) (id : String)
    → IsEntry v id
    → mem_text id seen ≡ false
    → check_entry seen v ≡ ok id
unfolding check_entry
entry_from seen v id e m = rw (e.is_object, e.closed, e.named, m, e.exclusive) refl

-- Unseen with one more seen: unseen before, and that one is not among them.
unseen_split :
    (seen : List String) (id : String) (ids : List String)
    → AreUnseen (id ∷ seen) ids
    → AreUnseen seen ids × (mem_text id ids ≡ false)
unseen_split seen id [] h = (tt, refl)
unseen_split seen id (x ∷ ids) (now, later) =
    let k = unseen_split seen id ids later in
    ((ground arith, k.0), ground (arith, k.1, eq_iff id x, eq_iff x id))

unseen_join :
    (seen : List String) (id : String) (ids : List String)
    → AreUnseen seen ids
    → mem_text id ids ≡ false
    → AreUnseen (id ∷ seen) ids
unseen_join seen id [] h m = tt
unseen_join seen id (x ∷ ids) (now, later) m =
    (ground (arith, eq_iff id x, eq_iff x id), unseen_join seen id ids later (ground arith))

entries_to :
    (seen : List String) (items : Items) (ids : List String)
    → check_entries seen items ≡ ok ids
    → AreEntries items ids × AreUnseen seen ids × AreDistinct ids
unfolding check_entries
entries_to seen nil ids h = let e : ids ≡ [] = ground arith in rw e (tt, tt, tt)
entries_to seen (cons v rest) ids h = elim (Result-cases (check_entry seen v)) [
  | inr (x, e) ↦ absurd (ground arith)
  | inl (id, e) ↦ elim (Result-cases (check_entries (id ∷ seen) rest)) [
    | inr (x, f) ↦ absurd (ground arith)
    | inl (others, f) ↦
        let all : ids ≡ id ∷ others = ground arith in
        let one = check_entry-IsEntry seen v id e in
        let more = entries_to (id ∷ seen) rest others f in
        let fresh = unseen_split seen id others more.1 in
        rw all ((one.0, more.0), (one.1, fresh.0), (fresh.1, more.2))
  ]
]

entries_from :
    (seen : List String) (items : Items) (ids : List String)
    → AreEntries items ids
    → AreUnseen seen ids
    → AreDistinct ids
    → check_entries seen items ≡ ok ids
unfolding check_entries
entries_from seen nil [] e u d = refl
entries_from seen (cons v rest) (id ∷ ids) (e, es) (u, us) (d, ds) =
    rw
      (
        entry_from seen v id e u,
        entries_from (id ∷ seen) rest ids es (unseen_join seen id ids us d) ds,
      )
      refl
entries_from seen nil (id ∷ ids) e u d = elim e [ ]
entries_from seen (cons v rest) [] e u d = elim e [ ]

all_unseen : (ids : List String) → AreUnseen [] ids
all_unseen [] = tt
all_unseen (id ∷ ids) = (refl, all_unseen ids)

accepted :
    (file : RecordFile Fields) (ids : List String)
    → load_resource_manifest file ≡ ok ids
    → IsManifest file ids
unfolding load_resource_manifest read_config_file
accepted missing ids h = absurd (ground arith)
accepted unreadable ids h = absurd (ground arith)
accepted (readable r) ids h = elim (Option-cases (as_items (get "resources" r))) [
  | inl e ↦ absurd (ground arith)
  | inr (items, e) ↦
      let k = entries_to [] items ids (ground arith) in
      record {
        content = r;
        items = items;
        readable_file = refl;
        closed = ground arith;
        schema =
            same_option_iff_to (as_text (get "schema" r)) (some "resource-manifest/v1")
              (ground arith);
        listed = e;
        entries = k.0;
        distinct = k.2;
      }
]

-- A manifest is accepted with these identifiers exactly if the file can be read, has the schema and
-- no other key than its two, and lists objects with no other key than `id` and `exclusive`, with
-- these identifiers in order, none empty and none twice, and each exclusive.
pub load_resource_manifest-IsManifest :
    (file : RecordFile Fields) (ids : List String)
    → (load_resource_manifest file ≡ ok ids) ↔ IsManifest file ids
unfolding load_resource_manifest read_config_file
load_resource_manifest-IsManifest file ids = (
  accepted file ids,
  λ m.
      rw (load_resource_manifest, m.readable_file, read_config_file, m.closed, m.schema, m.listed)
        (entries_from [] m.items ids m.entries (all_unseen ids) m.distinct),
)
