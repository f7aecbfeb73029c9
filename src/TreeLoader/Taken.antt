-- ===== src/TreeLoader/Taken.antt =====
-- The loop over trees that all hold a path, and the newest inode among those that it took.
use zippy_fs.Common.{
  ℕ, ◌≤◌, ◌<◌, ◌≡◌, refl, ap, sym, ◌∙◌, true, false, some, List, [], ◌∷◌, ◌++◌, Str, ◌⊎◌, inl, inr,
  ok, not-ltb→le, ltb→lt, subst, ltb, append-nil, Bool-cases, arith,
}
use zippy_fs.Cache.State.{DiskInode}
use zippy_fs.Index.Memory.{Mem, InodeCell}
use zippy_fs.Index.Entries.{IsTree, lookup}
use zippy_fs.TreeLoader.Search.{inode_offset}
use zippy_fs.TreeLoader.Descent.{inode_offset-lookup}
use zippy_fs.TreeLoader.Latest.{Latest, inode_at, take_inode, search_trees}

-- Trees that all hold a key, with the inodes that they have for it. None is higher than the fuel.
pub data Hold (fuel : ℕ) (p : Str) : List Mem → List InodeCell → Type 0 where
  hold_none : Hold fuel p [] []
  hold_one :
      {m : Mem} {trees : List Mem} {cells : List InodeCell} (height : ℕ) (es : List (Str × ℕ))
      (offset : ℕ)
      → IsTree m height m.header.root es
      → height < fuel
      → lookup p es ≡ some offset
      → Hold fuel p trees cells
      → Hold fuel p (m ∷ trees) (inode_at offset m ∷ cells)

-- The attributes that an answer has are those of an inode.
unfoldable pub Shows : InodeCell → DiskInode → Type 0
Shows c info =
    (info.i_mtime ≡ c.mtime)
    × (info.i_mode ≡ c.mode)
    × (info.i_size ≡ c.size)
    × (info.i_nlink ≡ c.nlink)
    × (info.i_ctime ≡ c.ctime)
    × (info.i_deleted ≡ c.deleted)

-- One of the inodes has these attributes.
unfoldable pub OneShows : List InodeCell → DiskInode → Type 0
unfolding Shows
OneShows [] info = ⊥
OneShows (c ∷ cells) info = Shows c info ⊎ OneShows cells info

unfoldable pub NoneNewer : ℕ → List InodeCell → Type 0
NoneNewer t [] = Unit
NoneNewer t (c ∷ cells) = (c.mtime ≤ t) × NoneNewer t cells

unfoldable pub take_inodes : Str → List InodeCell → Latest → Latest
take_inodes p [] l = l
take_inodes p (c ∷ cells) l = take_inodes p cells (take_inode p c l)

search_trees-step :
    (fuel offset : ℕ) (p : Str) (m : Mem) (trees : List Mem) (l : Latest)
    → inode_offset fuel m p ≡ ok (some offset)
    → search_trees fuel p false (m ∷ trees) l
      ≡ search_trees fuel p false trees (take_inode p (inode_at offset m) l)
unfolding search_trees
search_trees-step fuel offset p m trees l h = rw (h, search_trees) refl

-- Trees that hold the key are gone through to the last.
pub search_trees-Hold :
    {fuel : ℕ} {p : Str} {before : List Mem} {cells : List InodeCell} (after : List Mem)
    (l : Latest)
    → Hold fuel p before cells
    → search_trees fuel p false (before ++ after) l
      ≡ search_trees fuel p false after (take_inodes p cells l)
unfolding take_inodes
search_trees-Hold after l hold_none = refl
search_trees-Hold {fuel} {p} after l (hold_one {m} {trees} {cells} height es offset t h e rest) =
    search_trees-step fuel offset p m (trees ++ after) l
      (inode_offset-lookup fuel height m p es t h ∙ ap ok e)
    ∙ search_trees-Hold after (take_inode p (inode_at offset m) l) rest

pub search_trees-Hold_all :
    {fuel : ℕ} {p : Str} {trees : List Mem} {cells : List InodeCell} (l : Latest)
    → Hold fuel p trees cells
    → search_trees fuel p false trees l ≡ ok (take_inodes p cells l)
unfolding search_trees
search_trees-Hold_all {fuel} {p} {trees} l hold =
    ap (λ ms. search_trees fuel p false ms l) (sym (append-nil trees)) ∙ search_trees-Hold [] l hold

-- What is known of the answer after some inodes: nothing newer was seen, and it is one of them or
-- as it was.
unfoldable pub Newest : List InodeCell → Latest → Latest → Type 0
Newest cells l l' =
    (l.latest_time ≤ l'.latest_time)
    × NoneNewer l'.latest_time cells
    × ((l' ≡ l)
        ⊎ ((l'.info.i_mtime ≡ l'.latest_time)
            × (l.latest_time < l'.latest_time)
            × OneShows cells l'.info))

take_inode-older :
    (p : Str) (c : InodeCell) (l : Latest)
    → ltb l.latest_time c.mtime ≡ false
    → take_inode p c l ≡ l
unfolding take_inode
take_inode-older p c l h = rw h refl

-- An inode that is later is the answer until then.
take_inode-later :
    (p : Str) (c : InodeCell) (l : Latest)
    → ltb l.latest_time c.mtime ≡ true
    → ((take_inode p c l).latest_time ≡ c.mtime) × Shows c (take_inode p c l).info
unfolding take_inode Shows
take_inode-later p c l h = rw h (refl, (refl, refl, refl, refl, refl, refl))

Newest-later :
    (c : InodeCell) (cells : List InodeCell) (l l₁ l' : Latest)
    → l.latest_time < c.mtime
    → l₁.latest_time ≡ c.mtime
    → Shows c l₁.info
    → Newest cells l₁ l'
    → Newest (c ∷ cells) l l'
unfolding Newest NoneNewer OneShows Shows
Newest-later c cells l l₁ l' h e shows n = (
  omega (arith, n),
  (omega (arith, n), n.1),
  inr (elim n.2 [
    | inl same ↦
        let t : l'.latest_time ≡ c.mtime = ap (λ x. x.latest_time) same ∙ e in
        let shown : Shows c l'.info = subst (λ x. Shows c x.info) (sym same) shows in
        (shown.0 ∙ sym t, omega arith, inl shown)
    | inr (t, later, shown) ↦ (t, omega arith, inr shown)
  ]),
)

Newest-older :
    (c : InodeCell) (cells : List InodeCell) (l l' : Latest)
    → c.mtime ≤ l.latest_time
    → Newest cells l l'
    → Newest (c ∷ cells) l l'
unfolding Newest NoneNewer OneShows
Newest-older c cells l l' h n = (
  n.0,
  (omega (arith, n), n.1),
  elim n.2 [ inl same ↦ inl same | inr (t, later, shown) ↦ inr (t, later, inr shown) ],
)

pub take_inodes-Newest :
    (p : Str) (cells : List InodeCell) (l : Latest) → Newest cells l (take_inodes p cells l)
unfolding Newest take_inodes NoneNewer
take_inodes-Newest p [] l = (omega arith, tt, inl refl)
take_inodes-Newest p (c ∷ cells) l = elim (Bool-cases (ltb l.latest_time c.mtime)) [
  | inl h ↦
      let (e, shows) = take_inode-later p c l h in
      Newest-later c cells l (take_inode p c l) _ (ltb→lt l.latest_time c.mtime h) e shows
        (take_inodes-Newest p cells (take_inode p c l))
  | inr h ↦ Newest-older c cells l _ (not-ltb→le l.latest_time c.mtime h) (
      subst (λ x. Newest cells l (take_inodes p cells x)) (sym (take_inode-older p c l h))
        (take_inodes-Newest p cells l))
]

pub Newest-shown :
    (p : Str) (c : InodeCell) (cells : List InodeCell) (l l' : Latest)
    → l.latest_time < c.mtime
    → Newest (c ∷ cells) l l'
    → NoneNewer l'.info.i_mtime (c ∷ cells) × OneShows (c ∷ cells) l'.info
unfolding Newest NoneNewer
Newest-shown p c cells l l' h n = elim n.2 [
  | inl same ↦ absurd (omega (arith, n.1.0, ap (λ x. x.latest_time) same))
  | inr (t, later, shown) ↦ (subst (λ x. NoneNewer x (c ∷ cells)) (sym t) n.1, shown)
]
