-- ===== src/XmlDocCache.antt =====
-- `XmlDocCache` of green_turtle/xml_doc_cache.h: parsed documents by the name of their file.
pub mod Times
mod Tests
use green_turtle.Base.{
  ℕ, Bool, true, false, not, ◌&&◌, Option, none, some, List, [], ◌∷◌, ◌==◌, if◌then◌else◌, lookup,
  remove, store,
}

-- `shared_doc` is `none` after a reset; `D` is the type of documents.
pub record XmlDocInfo {ℓ} (D : Type ℓ) : Type ℓ where
  pub shared_doc : Option D
  pub modify_time : ℕ

-- pugi::status_ok
abbrev pub status_ok : ℕ
status_ok = 0

-- A file is named by a number. The parser's `load_file` gives a status and a document,
-- `file_time` is `System::GetFileModifyTime`, and `parse_file` what the program's callback returns.
module _ {ℓ} {D : Type ℓ} (parse : ℕ → ℕ × D) (file_time : ℕ → ℕ) (parse_file : ℕ → Bool) where
  unfoldable pub load_file : List (ℕ × XmlDocInfo D) → ℕ → (Bool × ℕ) × List (ℕ × XmlDocInfo D)
  load_file cache file = elim (lookup cache file) [
    | some info ↦ ((true, status_ok), cache)
    | none ↦
        let (status, doc) = parse file in
        let info : XmlDocInfo D = record { shared_doc = some doc; modify_time = file_time file } in
        if status == status_ok
        then if parse_file file
          then ((true, status), store cache file info)
          else ((false, status_ok), remove (store cache file info) file)
        else ((true, status), cache)
  ]

  -- An entry of a file whose time differs is loaded again; whether the round goes on.
  unfoldable pub reload_entry : Bool → ℕ → XmlDocInfo D → Bool × XmlDocInfo D
  reload_entry need_abort file info =
      let (status, doc) = parse file in
      if file_time file == info.modify_time
      then (true, info)
      else if status == status_ok
      then (not (not (parse_file file) && need_abort), record info { shared_doc = some doc })
      else (true, info)

  unfoldable pub reload_file : Bool → List (ℕ × XmlDocInfo D) → (Bool × ℕ) × List (ℕ × XmlDocInfo D)
  reload_file need_abort [] = ((true, status_ok), [])
  reload_file need_abort (p ∷ ps) =
      let r = reload_entry need_abort p.0 p.1 in
      let rest = reload_file need_abort ps in
      if r.0 then (rest.0, (p.0, r.1) ∷ rest.1) else ((false, status_ok), (p.0, r.1) ∷ ps)

-- The walk of the selected nodes until the callback is false, and the first of them.
unfoldable pub walk_nodes {κ} : {N : Type κ} → (N → Bool) → List N → Bool
walk_nodes callback [] = true
walk_nodes callback (n ∷ ns) = callback n && walk_nodes callback ns

abbrev pub first_node {κ} : {N : Type κ} → (N → Bool) → List N → Bool
first_node callback [] = true
first_node callback (n ∷ ns) = callback n

module _ {ℓ κ} {D : Type ℓ} {N : Type κ} where
  -- `ForEach` with the nodes that a document gives for the query; `none` is a use of NULL.
  unfoldable pub for_each : List (ℕ × XmlDocInfo D) → ℕ → (D → List N) → (N → Bool) → Option Bool
  for_each cache file query callback = elim (lookup cache file) [
    | none ↦ some false
    | some info ↦ elim info.shared_doc [
      | none ↦ none
      | some doc ↦ some (walk_nodes callback (query doc))
    ]
  ]

  unfoldable pub first : List (ℕ × XmlDocInfo D) → ℕ → (D → List N) → (N → Bool) → Option Bool
  first cache file query callback = elim (lookup cache file) [
    | none ↦ some false
    | some info ↦ elim info.shared_doc [
      | none ↦ none
      | some doc ↦ some (first_node callback (query doc))
    ]
  ]

module _ {ℓ} {D : Type ℓ} where
  unfoldable pub clear : List (ℕ × XmlDocInfo D) → List (ℕ × XmlDocInfo D)
  clear cache = []

  unfoldable pub clear_file : List (ℕ × XmlDocInfo D) → ℕ → List (ℕ × XmlDocInfo D)
  clear_file cache file = remove cache file

  unfoldable pub load_complete : List (ℕ × XmlDocInfo D) → List (ℕ × XmlDocInfo D)
  load_complete [] = []
  load_complete (p ∷ ps) = (p.0, record p.1 { shared_doc = none }) ∷ load_complete ps
