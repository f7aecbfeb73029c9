-- ===== src/Cache/Files/Listing.antt =====
-- `readdir` of block_cache.cpp: which of the entries on disk it keeps.
use mathlib.Core.List.{Memᴰ}
use mathlib.Core.List.Memᴰ.{not-nil}
use zippy_fs.Common.{
  ◌≤◌, ◌≡◌, ◌≢◌, refl, sym, ◌∙◌, ap, none, some, Option, List, [], ◌∷◌, ltb, if◌then◌else◌, Str,
  arith, Option-cases, Bool-cases, str_beq, str_beq_iff, ◌⊎◌, inl, inr,
}
use zippy_fs.Common.Map.{find, insert_ordered, str_key, find-insert_ordered}
use zippy_fs.Cache.State.{IndexEntry}
use zippy_fs.Cache.Files.{merge_entries}

-- The entry of `path` that is kept of `old` and `e`.
abbrev newer : Str → IndexEntry → Option IndexEntry → Option IndexEntry
newer path e old =
    if str_beq path e.path
    then elim old [ none ↦ some e | some o ↦ if ltb e.mtime o.mtime then some o else some e ]
    else old

abbrev newest : Str → List IndexEntry → Option IndexEntry → Option IndexEntry
newest path [] old = old
newest path (e ∷ es) old = newest path es (newer path e old)

-- One round of the loop of `readdir`.
abbrev merge_entry : IndexEntry → List (Str × IndexEntry) → List (Str × IndexEntry)
merge_entry e added = elim (find e.path added) [
  | none ↦ insert_ordered e.path e added
  | some old ↦ if ltb e.mtime old.mtime then added else insert_ordered e.path e added
]

find-merge_entry :
    (path : Str) (e : IndexEntry) (added : List (Str × IndexEntry))
    → find path (merge_entry e added) ≡ newer path e (find path added)
find-merge_entry path e added =
    ground (arith, find-insert_ordered e.path path e added, str_beq_iff path e.path)

find-merge_entries :
    (path : Str) (es : List IndexEntry) (added : List (Str × IndexEntry))
    → find path (merge_entries es added) ≡ newest path es (find path added)
unfolding merge_entries
find-merge_entries path [] added = refl
find-merge_entries path (e ∷ es) added =
    find-merge_entries path es (merge_entry e added)
    ∙ ap (λ o. newest path es o) (find-merge_entry path e added)

-- What is found for `path` is the latest of `es` and `old`.
pub record Latest (path : Str) (es : List IndexEntry) (old : Option IndexEntry) (e : IndexEntry)
    : Type 0 where
  pub source : (old ≡ some e) ⊎ (Memᴰ e es × (e.path ≡ path))
  pub after : (e' : IndexEntry) → Memᴰ e' es → e'.path ≡ path → e'.mtime ≤ e.mtime
  pub after_old : (o : IndexEntry) → old ≡ some o → o.mtime ≤ e.mtime

absurd_none {ℓ} : {C : Type ℓ} {e : IndexEntry} → none ≡ some e → C
absurd_none h = cc

newer-source :
    (path : Str) (f e : IndexEntry) (old : Option IndexEntry)
    → newer path f old ≡ some e
    → (old ≡ some e) ⊎ ((e ≡ f) × (f.path ≡ path))
newer-source path f e none h = ground (arith, str_beq_iff path f.path)
newer-source path f e (some o) h = ground (arith, str_beq_iff path f.path)

newer-after :
    (path : Str) (f : IndexEntry) (old : Option IndexEntry)
    → f.path ≡ path
    → (o : IndexEntry) × (newer path f old ≡ some o) × (f.mtime ≤ o.mtime)
newer-after path f none h = (f, ground (arith, str_beq_iff path f.path), omega arith)
newer-after path f (some o) h = elim (Bool-cases (ltb f.mtime o.mtime)) [
  | inl k ↦ (o, ground (arith, str_beq_iff path f.path), ground arith)
  | inr k ↦ (f, ground (arith, str_beq_iff path f.path), omega arith)
]

newer-after_old :
    (path : Str) (f o : IndexEntry)
    → (o' : IndexEntry) × (newer path f (some o) ≡ some o') × (o.mtime ≤ o'.mtime)
newer-after_old path f o = elim (Bool-cases (str_beq path f.path)) [
  | inl k ↦ elim (Bool-cases (ltb f.mtime o.mtime)) [
    | inl l ↦ (o, ground arith, omega arith)
    | inr l ↦ (f, ground arith, ground arith)
  ]
  | inr k ↦ (o, ground arith, omega arith)
]

newest-Latest :
    (path : Str) (es : List IndexEntry) (old : Option IndexEntry) (e : IndexEntry)
    → newest path es old ≡ some e
    → Latest path es old e
newest-Latest path [] old e h = record {
  source = inl h;
  after = λ e' m k. absurd (not-nil m);
  after_old = λ o k. ground arith;
}
newest-Latest path (f ∷ es) old e h =
    let v = newest-Latest path es (newer path f old) e h in
    record {
      source = elim v.source [
        | inl k ↦ elim (newer-source path f e old k) [
          | inl l ↦ inl l
          | inr (l, l') ↦ inr (Memᴰ.head l, ap (λ x. x.path) l ∙ l')
        ]
        | inr (m, k) ↦ inr (Memᴰ.tail m, k)
      ];
      after = λ e' m k. elim m [
        | Memᴰ.head l ↦
            (let (o, q, r) = newer-after path f old (ap (λ x. x.path) (sym l) ∙ k) in
              omega (arith, ap (λ x. x.mtime) l, v.after_old o q))
        | Memᴰ.tail m' ↦ v.after e' m' k
      ];
      after_old = λ o k.
          let (o', q, r) = newer-after_old path f o in
          omega (arith, v.after_old o' (ap (λ x. newer path f x) k ∙ q));
    }

newest-none :
    (path : Str) (es : List IndexEntry) (old : Option IndexEntry)
    → newest path es old ≡ none
    → (old ≡ none) × ((e : IndexEntry) → Memᴰ e es → e.path ≢ path)
newest-none path [] old h = (h, λ e m k. absurd (not-nil m))
newest-none path (f ∷ es) old h =
    let (a, b) = newest-none path es (newer path f old) h in
    (
      elim (Option-cases old) [
        | inl k ↦ k
        | inr (o, k) ↦
            (let (o', q, r) = newer-after_old path f o in
              absurd_none (sym a ∙ ap (λ x. newer path f x) k ∙ q))
      ],
      λ e m k. elim m [
        | Memᴰ.head l ↦
            (let (o, q, r) = newer-after path f old (ap (λ x. x.path) (sym l) ∙ k) in
              absurd_none (sym a ∙ q))
        | Memᴰ.tail m' ↦ b e m' k
      ],
    )

-- If an entry on disk is of a path, `readdir` keeps an entry of this path: one of those on disk,
-- and none of them is later.
pub merge_entries_lem :
    (path : Str) (es : List IndexEntry) (e' : IndexEntry)
    → Memᴰ e' es
    → e'.path ≡ path
    → (e : IndexEntry) × (find path (merge_entries es []) ≡ some e)
      × Memᴰ e es
      × (e.path ≡ path)
      × (e'.mtime ≤ e.mtime)
unfolding find
merge_entries_lem path es e' m k = elim (Option-cases (find path (merge_entries es []))) [
  | inl h ↦ absurd ((newest-none path es none (sym (find-merge_entries path es []) ∙ h)).1 e' m k)
  | inr (e, h) ↦
      (let v = newest-Latest path es none e (sym (find-merge_entries path es []) ∙ h) in
        elim v.source [ inl q ↦ absurd_none q | inr (q, r) ↦ (e, h, q, r, v.after e' m k) ])
]
