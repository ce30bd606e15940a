-- ===== src/Server/Scheduler/Publishing/Tries.antt =====
-- server/scheduler/outputNaming.go: what becomes of one candidate for the path of an output.
use mathlib.Core.Bool.{false≢true}
use mathlib.Core.Option.{none-ne-some}
use transcoderd.Prelude.{
  ℕ, suc, ◌≡◌, ◌≢◌, refl, ap, sym, ◌∙◌, true, false, Option, none, some, List, [], ◌∷◌, length,
  Bool-cases, Option-cases, inl, inr, ==_iff,
}
use transcoderd.Server.Files.Paths.{FilePath, path_eq}
use transcoderd.Server.Files.Disk.{
  File, Disk, lookup, Stat, found, missing, unreadable, stat, stat_of, link, lookup-entry,
  lookup-other, lookup-fresh,
}
use transcoderd.Server.Scheduler.Publishing.{
  Access, Published, published, not_published, same_file, try_candidate,
}
use transcoderd.Server.Scheduler.Publishing.Candidates.{is_among}

unfoldable pub paths : Disk → List FilePath
paths [] = []
paths (entry ∷ d) = entry.0 ∷ paths d

pub length-paths : (d : Disk) → length (paths d) ≡ length d
unfolding paths
length-paths [] = refl
length-paths (entry ∷ d) = ap suc (length-paths d)

pub lookup-among :
    (p : FilePath) (f : File) (d : Disk) → lookup p d ≡ some f → is_among p (paths d) ≡ true
unfolding lookup paths is_among
lookup-among p f [] h = absurd (none-ne-some f h)
lookup-among p f (entry ∷ d) h = elim (Bool-cases (path_eq entry.0 p)) [
  | inl e ↦ rw e refl
  | inr e ↦ rw e (lookup-among p f d (rw e at h))
]

-- A file that is published at a path: it is the staged file, which the path may have had before, and
-- no other path changes.
pub record Kept (staging path : FilePath) (d d' : Disk) : Type 0 where
  pub staged : File
  pub staged_file : lookup staging d ≡ some staged
  pub target : File
  pub target_file : lookup path d' ≡ some target
  pub same_inode : target.inode ≡ staged.inode
  pub reused : (f : File) → lookup path d ≡ some f → f.inode ≡ staged.inode
  pub files : (q : FilePath) (f : File) → lookup q d ≡ some f → lookup q d' ≡ some f
  pub others : (q : FilePath) → path ≢ q → lookup q d' ≡ lookup q d

inode_or : File → Option File → ℕ
inode_or f none = f.inode
inode_or f (some g) = g.inode

-- What becomes of one candidate.
pub data Try (a : Access) (staging path : FilePath) (d : Disk) : Type 0 where
  placed :
      (d' : Disk)
      → ((rest : Option Published) → try_candidate a staging path d rest ≡ some (published path d'))
      → Kept staging path d d'
      → Try a staging path d
  failed :
      ((rest : Option Published) → try_candidate a staging path d rest ≡ some not_published)
      → Try a staging path d
  passed :
      ((rest : Option Published) → try_candidate a staging path d rest ≡ rest)
      → is_among path (paths d) ≡ true
      → Try a staging path d

fresh-Kept :
    (staging path : FilePath) (d : Disk) (f : File)
    → lookup staging d ≡ some f
    → lookup path d ≡ none
    → Kept staging path d ((path, f) ∷ d)
fresh-Kept staging path d f e free = record {
  staged = f;
  staged_file = e;
  target = f;
  target_file = lookup-entry path f d;
  same_inode = refl;
  reused = λ g h. absurd (none-ne-some g (sym free ∙ h));
  files = λ q g h. lookup-fresh path q f g d free h;
  others = λ q h. lookup-other path q f d h;
}

unreadable-differs : (t : Stat) → same_file t unreadable ≡ false
unreadable-differs (found f) = refl
unreadable-differs missing = refl
unreadable-differs unreadable = refl

same_file-inode :
    (a : Access) (staging path : FilePath) (d : Disk) (f g : File)
    → lookup staging d ≡ some f
    → lookup path d ≡ some g
    → same_file (stat a.stat_denied staging d) (stat a.stat_denied path d) ≡ true
    → f.inode ≡ g.inode
unfolding stat
same_file-inode a staging path d f g e k h = elim (Bool-cases (a.stat_denied staging)) [
  | inl denied ↦ absurd (false≢true (rw denied at h))
  | inr seen ↦ elim (Bool-cases (a.stat_denied path)) [
    | inl hidden ↦ absurd (
        false≢true
          (sym (unreadable-differs (stat_of (lookup staging d))) ∙ (rw (seen, hidden) at h)))
    | inr shown ↦ (==_iff f.inode g.inode).0 (rw (seen, shown, e, k) at h)
  ]
]

pub Try-cases : (a : Access) (staging path : FilePath) (d : Disk) → Try a staging path d
unfolding link try_candidate inode_or
Try-cases a staging path d = elim (Option-cases (lookup staging d)) [
  | inl e ↦ failed (λ rest. rw e refl)
  | inr (f, e) ↦ elim (Option-cases (lookup path d)) [
    | inl free ↦ elim (Bool-cases (a.link_denied path)) [
      | inl denied ↦ failed (λ rest. rw (e, free, denied) refl)
      | inr allowed ↦
          placed ((path, f) ∷ d) (λ rest. rw (e, free, allowed) refl)
            (fresh-Kept staging path d f e free)
    ]
    | inr (g, taken) ↦
        elim (Bool-cases (same_file (stat a.stat_denied staging d) (stat a.stat_denied path d))) [
          | inl same ↦
              placed d (λ rest. rw (e, taken, same) refl)
                (record {
                  staged = f;
                  staged_file = e;
                  target = g;
                  target_file = taken;
                  same_inode = sym (same_file-inode a staging path d f g e taken same);
                  reused = λ k h.
                      ap (inode_or k) (sym h ∙ taken)
                      ∙ sym (same_file-inode a staging path d f g e taken same);
                  files = λ q k h. h;
                  others = λ q h. refl;
                })
          | inr other ↦ passed (λ rest. rw (e, taken, other) refl) (lookup-among path g d taken)
        ]
  ]
]
