-- ===== src/Files/Transfer/Temp.antt =====
-- `TempFile` of include/femtolog/core/base/file_util.h: a file with the lifetime of the object.
use femtolog.Prelude.{
  ℕ, ◌<◌, List, [], ◌∷◌, Option, none, some, ◌>>=◌, Bool, true, false, ◌≡◌, refl, ap, length, take,
  arith,
}
use femtolog.Files.Transfer.{Code, success, failure, Writer, write_file}
use femtolog.Files.Transfer.Write.{Written, write_file-Written}

-- What stands under the path of the object.
abbrev pub Place : Type 0
Place = Option (List ℕ)

-- `create_file`: an exclusive `fopen`, which may fail for other reasons too.
unfoldable pub create_file : Bool → Place → Code × Place
create_file allowed (some contents) = (failure, some contents)
create_file true none = (success, some [])
create_file false none = (failure, none)

-- `remove_file`
unfoldable pub remove_file : Bool → Place → Code × Place
remove_file allowed none = (failure, none)
remove_file true (some contents) = (success, none)
remove_file false (some contents) = (failure, some contents)

-- `valid_` and the place, by the result of `write_file`.
abbrev pub written : Code × List ℕ → Option (Bool × Place)
written (success, file) = some (true, some file)
written (failure, file) = some (false, some file)

-- The file is filled, when there is something to write.
abbrev pub fill : Option Writer → List ℕ → Code × Place → Option (Bool × Place)
fill w content (failure, place) = some (false, place)
fill w [] (success, place) = some (true, place)
fill w (c ∷ content) (success, place) = write_file w [] (c ∷ content) >>= written

-- `TempFile::TempFile`
unfoldable pub construct : Bool → Option Writer → List ℕ → Place → Option (Bool × Place)
unfolding create_file
construct allowed w content place = fill w content (create_file allowed place)

-- `TempFile::~TempFile`
unfoldable pub destroy : Bool → Bool × Place → Place
unfolding remove_file
destroy allowed (true, place) = (remove_file allowed place).1
destroy allowed (false, place) = place

-- An object that was constructed valid has its content in the file, and its destructor removes the
-- file. One whose writing failed has less, and its destructor leaves the file there.
abbrev pub Constructed : List ℕ → Option (Bool × Place) → Type 0
Constructed content none = ⊥
Constructed content (some (true, place)) =
    (place ≡ some content) × (destroy true (true, place) ≡ none)
Constructed content (some (false, place)) =
    (n : ℕ) × (n < length content)
    × (place ≡ some (take n content))
    × ((allowed : Bool) → destroy allowed (false, place) ≡ place)

written-Constructed :
    (content : List ℕ) (result : Option (Code × List ℕ))
    → Written content result
    → Constructed content (result >>= written)
unfolding destroy remove_file
written-Constructed content none h = h
written-Constructed content (some (success, file)) h = (ap some h, refl)
written-Constructed content (some (failure, file)) (n, less, e) =
    (n, less, ap some e, λ allowed. refl)

fill-Constructed :
    (w : Option Writer) (content : List ℕ) → Constructed content (fill w content (success, some []))
unfolding destroy remove_file write_file
fill-Constructed w [] = (refl, refl)
fill-Constructed none (c ∷ content) = (0, omega arith, refl, λ allowed. refl)
fill-Constructed (some w) (c ∷ content) =
    written-Constructed (c ∷ content) (write_file (some w) [] (c ∷ content))
      (write_file-Written w [] (c ∷ content))

-- A `TempFile` on a path that nothing stands under, where it may create the file, is valid with its
-- whole content in the file, which its destructor removes, or it is not valid and has written less, and
-- then its destructor leaves that file there. On a path that is taken it is not valid, and neither its
-- constructor nor its destructor changes what stands there.
pub temp_file_lem :
    (w : Option Writer) (content : List ℕ)
    → Constructed content (construct true w content none)
      × ((allowed removable : Bool) (old : List ℕ)
          → (construct allowed w content (some old) ≡ some (false, some old))
            × (destroy removable (false, some old) ≡ some old))
unfolding construct create_file destroy
temp_file_lem w content = (fill-Constructed w content, λ allowed removable old. (refl, refl))
