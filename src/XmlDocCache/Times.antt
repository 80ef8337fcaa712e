-- ===== src/XmlDocCache/Times.antt =====
-- What `LoadFile` and `ReloadFile` of xml_doc_cache.h leave in the cache.
use green_turtle.Base.{
  ℕ, ◌≡◌, refl, sym, ap, ap₂, ◌∙◌, Bool, ◌&&◌, Option, none, some, List, [], ◌∷◌, ◌==◌,
  if◌then◌else◌, lookup, store, lookup-remove, lookup-store, Bool-cases, Option-cases, inl, inr,
  ==_iff,
}
use green_turtle.XmlDocCache.{XmlDocInfo, status_ok, load_file, reload_entry, reload_file}

module _ {ℓ} {D : Type ℓ} (parse : ℕ → ℕ × D) (file_time : ℕ → ℕ) (parse_file : ℕ → Bool) where
  -- The files of the cache with their times.
  abbrev pub times : List (ℕ × XmlDocInfo D) → List (ℕ × ℕ)
  times [] = []
  times (p ∷ ps) = (p.0, p.1.modify_time) ∷ times ps

  time-reload_entry :
      (need_abort : Bool) (file : ℕ) (info : XmlDocInfo D)
      → (reload_entry parse file_time parse_file need_abort file info).1.modify_time
        ≡ info.modify_time
  unfolding reload_entry
  time-reload_entry need_abort file info = elim (Bool-cases (file_time file == info.modify_time)) [
    | inl same ↦ rw same
    | inr other ↦ elim (Bool-cases ((parse file).0 == status_ok)) [
      | inl good ↦ rw (other, good)
      | inr bad ↦ rw (other, bad)
    ]
  ]

  -- Reloading keeps the files and their recorded times: a file that changed once is loaded again
  -- at every later call, since its new time is not recorded.
  pub times-reload_file :
      (need_abort : Bool) (cache : List (ℕ × XmlDocInfo D))
      → times (reload_file parse file_time parse_file need_abort cache).1 ≡ times cache
  unfolding reload_file
  times-reload_file need_abort [] = refl
  times-reload_file need_abort (p ∷ ps) =
      let entry = time-reload_entry need_abort p.0 p.1 in
      let rest = times-reload_file need_abort ps in
      elim (Bool-cases (reload_entry parse file_time parse_file need_abort p.0 p.1).0) [
        | inl on ↦ rw on (ap₂ (λ t ts. (p.0, t) ∷ ts) entry rest)
        | inr off ↦ rw off (ap (λ t. (p.0, t) ∷ times ps) entry)
      ]

  -- What is in the cache after a file is loaded.
  abbrev pub loaded : List (ℕ × XmlDocInfo D) → ℕ → Option (XmlDocInfo D)
  loaded cache file = elim (lookup cache file) [
    | some info ↦ some info
    | none ↦
        if ((parse file).0 == status_ok) && parse_file file
        then some (record { shared_doc = some (parse file).1; modify_time = file_time file })
        else none
  ]

  -- A file that is cached stays as it is; another is cached exactly when the parser loads it and
  -- the callback accepts it. No other file is touched.
  pub load_file_lem :
      (cache : List (ℕ × XmlDocInfo D)) (file other : ℕ)
      → lookup (load_file parse file_time parse_file cache file).1 other
        ≡ (if file == other then loaded cache file else lookup cache other)
  unfolding load_file
  load_file_lem cache file other = elim (Option-cases (lookup cache file)) [
    | inr (info, there) ↦
        rw (there, load_file, loaded)
          (elim (Bool-cases (file == other)) [
            | inl same ↦ rw same (ap (lookup cache) (sym ((==_iff file other).0 same)) ∙ there)
            | inr away ↦ rw away refl
          ])
    | inl absent ↦
        rw (absent, load_file, loaded)
          (elim (Bool-cases ((parse file).0 == status_ok)) [
            | inr bad ↦ rw bad (elim (Bool-cases (file == other)) [
              | inl same ↦ rw same (ap (lookup cache) (sym ((==_iff file other).0 same)) ∙ absent)
              | inr away ↦ rw away refl
            ])
            | inl good ↦ elim (Bool-cases (parse_file file)) [
              | inl accepted ↦ rw (good, accepted) (lookup-store cache file other _)
              | inr refused ↦
                  rw (good, refused)
                    (lookup-remove (store cache file _) file other
                      ∙ (elim (Bool-cases (file == other)) [
                        | inl same ↦ rw same refl
                        | inr away ↦ rw away (lookup-remove cache file other ∙ rw away refl)
                      ]))
            ]
          ])
  ]
