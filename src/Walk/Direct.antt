-- ===== src/Walk/Direct.antt =====
-- src/scanner/native.rs: `read_direct`, which reads one directory again outside a walk. What the
-- system answers is data, as in a walk: the directory's own inode, its entries and how they end.
pub mod Same
use Prim.Native.Nat.{Ordering}
use storage_harvester.Base.{
  ℕ, Bool, true, false, not, ◌&&◌, Option, none, some, List, [], ◌∷◌, ◌++◌, ◌==◌, if◌then◌else◌,
}
use storage_harvester.Base.Int.{ℤ}
use storage_harvester.Base.Bytes.{Bytes, cmp}
use storage_harvester.Tree.Tally.{Tally, empty, add_size}
use storage_harvester.Tree.Dir.{Inode}
use storage_harvester.Walk.{push_component}
use storage_harvester.Walk.Build.{max_ℤ}
use storage_harvester.Walk.Read.{
  Setup, Stat, StatResult, stat, error, Entry, Kind, is_dot, is_shared, is_file, plus_one,
}

pub record Subdir : Type 0 where
  pub name : Bytes
  pub ino : ℕ
  pub blocks : ℕ
  pub apparent : ℕ
  pub mtime : ℤ

pub record Own : Type 0 where
  pub blocks : ℕ
  pub apparent : ℕ
  pub mtime : ℤ

pub record Listing : Type 0 where
  pub direct : Tally
  pub subdirs : List Subdir
  pub links : List (Inode × ℕ × ℕ)
  pub plain : List ℕ
  pub own : Own
  pub newest : ℤ

-- `io::Result<Listing>`.
pub data Relisted : Type 0 where
  listed : Listing → Relisted
  failed : Option ℕ → Relisted

abbrev pub insert_subdir : Subdir → List Subdir → List Subdir
insert_subdir d [] = d ∷ []
insert_subdir d (e ∷ es) =
    let rest = insert_subdir d es in
    elim (cmp e.name d.name) [
      | Ordering.lt ↦ e ∷ rest
      | Ordering.eq ↦ d ∷ e ∷ es
      | Ordering.gt ↦ d ∷ e ∷ es
    ]

-- `sort_by`: by name, equal ones as they came.
unfoldable pub sort_subdirs : List Subdir → List Subdir
sort_subdirs [] = []
sort_subdirs (d ∷ ds) = insert_subdir d (sort_subdirs ds)

-- A directory never comes here: it is listed before.
abbrev pub count_kind : Kind → Tally → Tally
count_kind Kind.file t = record t { files = plus_one t.files }
count_kind Kind.symlink t = record t { symlinks = plus_one t.symlinks }
count_kind Kind.directory t = record t { files = plus_one t.files }
count_kind Kind.other t = record t { files = plus_one t.files }

-- The listing before the first entry.
abbrev pub nothing_listed : Stat → Listing
nothing_listed own = record {
  direct = empty;
  subdirs = [];
  links = [];
  plain = [];
  own = record { blocks = own.blocks; apparent = own.size; mtime = own.mtime };
  newest = own.mtime;
}

module _ (w : Setup) (record_plain : Bool) (display_path : Bytes) where
  unfoldable pub list_directory : Bytes → Stat → Listing → Listing
  list_directory name s l = record l {
    direct = add_size (record l.direct { dirs = plus_one l.direct.dirs }) s.blocks s.size;
    subdirs =
        l.subdirs
        ++ record {
          name = name;
          ino = s.ino;
          blocks = s.blocks;
          apparent = s.size;
          mtime = s.mtime;
        }
          ∷ [];
  }

  unfoldable pub list_file : Stat → Listing → Listing
  list_file s l =
      let counted = count_kind s.kind l.direct in
      if is_shared s
      then (record l {
        direct = counted;
        links = l.links ++ ((s.dev, s.ino), s.blocks, s.size) ∷ [];
      })
      else (record l {
        direct = add_size counted s.blocks s.size;
        plain =
            if record_plain && is_file s.kind
            then l.plain ++ w.plain_key s.dev s.ino ∷ []
            else l.plain;
      })

  unfoldable pub list_kind : Kind → Bytes → Stat → Listing → Listing
  list_kind Kind.directory name s l = list_directory name s l
  list_kind Kind.file name s l = list_file s l
  list_kind Kind.symlink name s l = list_file s l
  list_kind Kind.other name s l = list_file s l

  unfoldable pub list_stat : Bytes → Stat → Listing → Listing
  list_stat name s l =
      if w.target.no_cross_filesystem && not (s.dev == w.root_dev)
      then l
      else list_kind s.kind name s (record l { newest = max_ℤ l.newest s.mtime })

  abbrev pub list_answer : StatResult → Bytes → Listing → Listing
  list_answer (stat s) name l = list_stat name s l
  list_answer (error code) name l = l

  -- One entry that is not `.` or `..`.
  unfoldable pub list_one : Entry → Listing → Listing
  list_one e l =
      if w.excluding && w.exclude (push_component display_path e.name)
      then l
      else list_answer e.answer e.name l

  unfoldable pub list_all : List Entry → Listing → Listing
  list_all [] l = l
  list_all (e ∷ es) l = list_all es (if is_dot e.name then l else list_one e l)

  unfoldable pub read_direct : Stat → List Entry → Option (Option ℕ) → Relisted
  read_direct own es (some code) = failed code
  read_direct own es none =
      let l = list_all es (nothing_listed own) in
      listed (record l { subdirs = sort_subdirs l.subdirs })
