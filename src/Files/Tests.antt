-- ===== src/Files/Tests.antt =====
-- The file utilities at concrete paths, contents and system answers.
use femtolog.Prelude.{
  some_inj, ℕ, ◌-◌, ◌<◌, List, [], ◌∷◌, ◌++◌, none, some, Bool, true, false, ◌≡◌, refl, ap, length,
  take, min, ◌==◌, if◌then◌else◌, arith, replicate,
}
use femtolog.Level.{codes}
use femtolog.Files.Path.{
  find_last_of, file_extension, file_name_without_extension, join_path, sanitize_component,
}
use femtolog.Files.Path.Extension.{Component, Parts, file_extension_lem}
use femtolog.Files.Path.Join.{Under, join_path_lem}
use femtolog.Files.Lines.{read_lines_default, read_lines_with_avx2}
use femtolog.Files.Lines.Equivalence.{read_lines_equal}
use femtolog.Files.Lines.Reads.{Reads, read_lines_default-Reads}
use femtolog.Files.Transfer.{success, Writer, Reader, write_file, read_file}
use femtolog.Files.Transfer.Write.{Written, write_file-Written}
use femtolog.Files.Transfer.Read.{read_file-write_file, IsSteady}
use femtolog.Files.Transfer.Compress.{Gzip, compress, Compressed, compress-Compressed}
use femtolog.Files.Directories.{made, already_exists, Tree, create_directories}
use femtolog.Files.Directories.Laws.{IsClear, Stop, create_directories_lem}
use femtolog.Files.Search.{is_executable_in_path}
use femtolog.Files.Transfer.Temp.{Constructed, construct, destroy, temp_file_lem}

file_extension_example :
    (name : List ℕ) × Component (codes "a/b.tar.gz") name
    × Parts name
        (file_name_without_extension (codes "a/b.tar.gz"))
        (file_extension (codes "a/b.tar.gz"))
file_extension_example = file_extension_lem (codes "a/b.tar.gz")

extension_runs : file_extension (codes "a.d/b.tar.gz") ≡ codes "gz"
unfolding file_extension find_last_of
extension_runs = refl

hidden_runs : file_extension (codes "home/.bashrc") ≡ []
unfolding file_extension find_last_of
hidden_runs = refl

join_path_example :
    Under
      (join_path (codes "usr/" ∷ codes "/lib" ∷ []))
      (codes "x")
      (join_path (codes "usr/" ∷ codes "/lib" ∷ codes "x" ∷ []))
unfolding find_last_of
join_path_example = join_path_lem (codes "usr/" ∷ codes "/lib" ∷ []) (codes "x") (refl, omega arith)

-- The root does not survive a `join_path` that starts with it.
join_root : join_path (codes "/" ∷ codes "usr" ∷ []) ≡ codes "usr"
unfolding join_path
join_root = refl

-- Two lines, with both ends of line, and a last one without.
abbrev two_and_a_half : List ℕ
two_and_a_half = codes "ab" ++ (13 ∷ 10 ∷ codes "c" ++ (10 ∷ codes "d"))

read_lines_default-Reads_example : Reads two_and_a_half (read_lines_default two_and_a_half)
read_lines_default-Reads_example = read_lines_default-Reads two_and_a_half

lines_run : read_lines_default two_and_a_half ≡ codes "ab" ∷ codes "c" ∷ codes "d" ∷ []
unfolding read_lines_default
lines_run = refl

-- More than one register of bytes.
abbrev long_content : List ℕ
long_content = replicate 20 b'x' ++ (10 ∷ replicate 30 b'y' ++ (10 ∷ []))

read_lines_equal_example : read_lines_with_avx2 long_content ≡ read_lines_default long_content
read_lines_equal_example = read_lines_equal long_content

vector_run : read_lines_with_avx2 long_content ≡ replicate 20 b'x' ∷ replicate 30 b'y' ∷ []
unfolding read_lines_with_avx2
vector_run = refl

-- Two bytes at most in a call.
abbrev slow_writer : Writer
slow_writer = record {
  write = λ offset n. some (min n 2);
  at_most = λ offset n k e. omega (arith, some_inj e);
}

write_file-Written_example :
    Written (codes "hello") (write_file (some slow_writer) (codes "old") (codes "hello"))
write_file-Written_example = write_file-Written slow_writer (codes "old") (codes "hello")

write_runs :
    write_file (some slow_writer) (codes "old") (codes "hello") ≡ some (success, codes "hello")
unfolding write_file
write_runs = refl

abbrev slow_reader : (file : List ℕ) → Reader file
slow_reader file = record {
  read = λ offset n. some (min (min n (length file - offset)) 3);
  at_most = λ offset n k e. omega (arith, some_inj e);
  in_file = λ offset n k e. omega (arith, some_inj e);
}

slow_reader-IsSteady : (file : List ℕ) → IsSteady (slow_reader file)
slow_reader-IsSteady file offset n inside positive =
    (min (min n (length file - offset)) 3 - 1, ap some (omega arith))

read_file-write_file_example :
    read_file (
      some (record {
        file = codes "hello";
        st_size = some (length (codes "hello"));
        reader = slow_reader (codes "hello");
      }))
    ≡ some (codes "hello")
read_file-write_file_example =
    read_file-write_file slow_writer (codes "old") (codes "hello") (codes "hello") write_runs
      (slow_reader (codes "hello")) (slow_reader-IsSteady (codes "hello"))

-- A source of five bytes, of which `fread` fails to get more than two.
abbrev failing_gzip : Gzip (codes "hello")
failing_gzip = record {
  fread = λ offset. if offset == 0 then 2 else 0;
  gzwrite = λ offset n. n;
  at_most = λ offset. ground arith;
  in_file = λ offset. ground arith;
}

compress-Compressed_example :
    Compressed
      (codes "hello")
      failing_gzip
      true
      (compress true true (codes "hello") failing_gzip true)
compress-Compressed_example = compress-Compressed (codes "hello") failing_gzip true

-- The error is taken for the end of the file, and the source is removed.
compress_runs :
    compress true true (codes "hello") failing_gzip true
    ≡ some (record { returned = true; compressed = codes "he"; removed = true })
unfolding compress
compress_runs = refl

-- A state of the directories is the list of their paths.
same : List ℕ → List ℕ → Bool
same [] [] = true
same (x ∷ xs) (y ∷ ys) = if x == y then same xs ys else false
same _ _ = false

same_self : (p : List ℕ) → same p p ≡ true
unfolding same
same_self [] = refl
same_self (x ∷ p) = ground (arith, same_self p)

known : List ℕ → List (List ℕ) → Bool
unfolding same
known p [] = false
known p (q ∷ dirs) = if same p q then true else known p dirs

abbrev plain_tree : Tree (List (List ℕ))
unfolding known
plain_tree = record {
  dir_exists = known;
  mkdir = λ p dirs. (made, p ∷ dirs);
  made_exists = λ p dirs e. ap (λ b. if b then true else known p dirs) (same_self p);
  keeps = λ p q dirs h. ground (arith, h);
}

-- Every answer of `mkdir` is 0 there.
plain_tree-IsClear : IsClear plain_tree
unfolding plain_tree
plain_tree-IsClear p dirs e = absurd (made_is_new e)
  where
    made_is_new : made ≡ already_exists → ⊥
    made_is_new e = cc

create_directories_example :
    ((create_directories plain_tree (codes "a/b/") []).0 ≡ 0
      → (k : ℕ) → 0 < k
      → Stop (sanitize_component (codes "a/b/") true) k
      → known
          (take k (sanitize_component (codes "a/b/") true))
          (create_directories plain_tree (codes "a/b/") []).1
        ≡ true)
    × ((p : List ℕ)
        → known p [] ≡ true
        → known p (create_directories plain_tree (codes "a/b/") []).1 ≡ true)
unfolding known plain_tree
create_directories_example = create_directories_lem plain_tree (codes "a/b/") [] plain_tree-IsClear

directories_run :
    create_directories plain_tree (codes "a/b/") [] ≡ (0, codes "a/b" ∷ codes "a" ∷ [])
unfolding create_directories known sanitize_component
directories_run = refl

search_runs :
    is_executable_in_path (same (codes "/bin/ls")) (codes "ls") (some (codes "/usr:/bin")) ≡ true
unfolding is_executable_in_path same
search_runs = refl

temp_file_example :
    Constructed (codes "hi") (construct true (some slow_writer) (codes "hi") none)
    × ((allowed removable : Bool) (old : List ℕ)
        → (construct allowed (some slow_writer) (codes "hi") (some old) ≡ some (false, some old))
          × (destroy removable (false, some old) ≡ some old))
temp_file_example = temp_file_lem (some slow_writer) (codes "hi")
