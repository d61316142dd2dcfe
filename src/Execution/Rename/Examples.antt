-- ===== src/Execution/Rename/Examples.antt =====
-- A session on the library of the journal's example: it moves the film, and refuses to move it again.
use anime_db.Base.{
  ℕ, String, ◌≡◌, refl, true, false, Option, none, some, List, [], ◌∷◌, All, distinct, ok, ◌==◌,
  String_eq, if◌then◌else◌, any,
}
use anime_db.Base.Effects.{Outcome, ◌>>=◌, raise, raise_if, pure, modify}
use anime_db.Execution.Manifest.{ℤ}
use anime_db.Execution.Manifest.Validate.{recycled}
use anime_db.Execution.Paths.{split, has_char, relative_locator_safe}
use anime_db.Execution.Rename.Unhindered.{InOrder}
use anime_db.Execution.Rename.Live.{Moves, Ready, rename-Returns}
use anime_db.Execution.Journal.Examples.Scenario.{manifest, film, subtitle}
use anime_db.Execution.Journal.Examples.Scenario as Scenario
use anime_db.Execution.Rename.{RenameResult, rename, key_eq}
use anime_db.Execution.Rename.Files.{Node, RenameState, fine, applied, interrupt}
use anime_db.Execution.Rename.Checks.{Host, validate_scratch_action}
use anime_db.Execution.Rename.Once.{Finished, rename-Finished}
use anime_db.Execution.Rename.Outcomes.{Failed}
use anime_db.Execution.Rename.Runs.{Request, renamed_keys, renamed_keys-distinct}

abbrev film_node : ℕ → Node
film_node fd = record {
  regular = true;
  own = true;
  nlink = 1;
  size = ℤ.pos 10;
  mtime_ns = ℤ.pos 0;
  on_device = true;
  on_mount = true;
}

abbrev directories : List String → Option ℕ
directories [] = some 1
directories (name ∷ rest) = if name == "c" then some 2 else if name == "d" then some 3 else none

abbrev library : Host
library = record {
  stat = film_node;
  directory = directories;
  root = "/library";
  mount_identity = "mount";
  view = record {
    mounts_same = true;
    held_same = true;
    secure = true;
    media_mount = true;
    reopened_same = true;
  };
  checkpoint = false;
}

abbrev opened : RenameState
opened = record {
  session = record { attempted_keys = []; poisoned = false; closed = false };
  disk = record { entries = ((2, "film"), 7) ∷ []; synced = [] };
  answers = [];
  attempted = false;
  succeeded = false;
}

abbrev moved : RenameState
moved = record opened {
  session = record {
    attempted_keys = ("manifest", "c/film") ∷ [];
    poisoned = false;
    closed = false;
  };
  disk = record { entries = ((3, "film"), 7) ∷ []; synced = 2 ∷ 3 ∷ 7 ∷ [] };
  attempted = true;
  succeeded = true;
}

abbrev film_moved : RenameResult
film_moved = record {
  manifest_id = "manifest";
  action_id = "c/film";
  outcome = "DURABLE";
  syscall_succeeded = true;
  durability_confirmed = true;
}

one_call : rename Scenario.host library true manifest film none opened ≡ (ok film_moved, moved)
unfolding rename ◌>>=◌ raise_if pure modify
one_call = refl

-- The film is renamed; the same request is then refused, and the subtitles have a predecessor.
abbrev requests : List Request
requests =
    record { same_process = true; manifest = manifest; action = film; observation = none }
    ∷ record { same_process = true; manifest = manifest; action = film; observation = none }
    ∷ record { same_process = true; manifest = manifest; action = subtitle; observation = none }
    ∷ []

one_rename : renamed_keys Scenario.host library requests opened ≡ ("manifest", "c/film") ∷ []
unfolding renamed_keys rename ◌>>=◌ raise_if pure modify
one_rename = refl

renamed_keys-distinct_example :
    (distinct key_eq (renamed_keys Scenario.host library requests opened) ≡ true)
    × All
        (λ k. any (key_eq k) opened.session.attempted_keys ≡ false)
        (renamed_keys Scenario.host library requests opened)
renamed_keys-distinct_example = renamed_keys-distinct Scenario.host library requests opened

-- A signal after the syscall took effect closes the session.
abbrev interrupted : RenameState
interrupted = record opened {
  answers =
      fine
      ∷ fine
      ∷ fine
      ∷ fine
      ∷ fine
      ∷ fine
      ∷ fine
      ∷ fine
      ∷ fine
      ∷ fine
      ∷ fine
      ∷ fine
      ∷ applied interrupt
      ∷ [];
}

interrupted_poisons :
    (rename Scenario.host library true manifest film none interrupted).1.session.poisoned ≡ true
unfolding rename ◌>>=◌ raise_if pure modify raise
interrupted_poisons = refl

rename-Finished_example :
    Outcome
      (Finished Scenario.host library interrupted manifest film)
      (Failed Scenario.host library interrupted manifest film)
      (rename Scenario.host library true manifest film none interrupted)
rename-Finished_example = rename-Finished Scenario.host library interrupted manifest film true none

in_order : InOrder library
in_order = record {
  mounts_same = refl;
  held_same = refl;
  secure = refl;
  media_mount = refl;
  reopened_same = refl;
}

film_valid : validate_scratch_action Scenario.host library manifest film opened ≡ (ok tt, opened)
unfolding validate_scratch_action ◌>>=◌ raise_if pure
film_valid = refl

film-Ready : Ready Scenario.host library manifest film opened
unfolding relative_locator_safe has_char recycled split
film-Ready = record {
  quiet = refl;
  usable = refl;
  live = refl;
  first = refl;
  valid = film_valid;
  placed = record {
    moves = refl;
    source_safe = refl;
    target_safe = refl;
    source_parent = 2;
    target_parent = 3;
    inode = 7;
    source_directory = refl;
    target_directory = refl;
    found = refl;
    free = refl;
    file = record {
      regular = refl;
      own = refl;
      one_name = refl;
      size = refl;
      mtime_ns = refl;
      on_device = refl;
      on_mount = refl;
    };
  };
}

rename-Returns_example :
    ((rename Scenario.host library true manifest film none opened).0 ≡ ok film_moved)
    × Moves Scenario.host library film-Ready.placed
        (rename Scenario.host library true manifest film none opened).1
rename-Returns_example =
    rename-Returns Scenario.host library manifest film in_order opened film-Ready
