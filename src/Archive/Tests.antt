-- ===== src/Archive/Tests.antt =====
-- Small archives and names, and the theorems at them. The letters of the tests are ASCII's.
use browserlogin_client.Prelude.{
  ℕ, ◌+◌, ◌-◌, ◌/◌, ◌%◌, String, Bool, true, false, some, List, [], ◌∷◌, ◌++◌, map, ◌&&◌, leb,
  length, if◌then◌else◌, All, ◌≡◌, refl,
}
use browserlogin_client.Recovery.Text.{codes}
use browserlogin_client.Archive.Names.{
  Checked, ok, err, Letters, Name, unsafe_path, reserved_name, conflicting_path, is_empty, split,
  normalize_name,
}
use browserlogin_client.Archive.Names.Safety.{walk, below, Proper, normalize_name-stays_inside}
use browserlogin_client.Archive.Limits.{
  Limits, archive_limits, validate_limits, is_symlink, is_directory_entry, disposable,
}
use browserlogin_client.Archive.Directory.{read_central_directory}
use browserlogin_client.Archive.Bytes.{Reader, Entry}
use browserlogin_client.Archive.Directory.Sound.{Promised, read_central_directory-Sound}

abbrev ascii : Letters
ascii = record {
  lower = map (λ c. if leb 65 c && leb c 90 then c + 32 else c);
  upper = map (λ c. if leb 97 c && leb c 122 then c - 32 else c);
}

abbrev name_of : String → String → Name
name_of n k = record { name = codes n; key = codes k }

windows_path_test :
    normalize_name ascii (codes "Default\\Cache//F")
    ≡ ok (name_of "Default/Cache/F" "default/cache/f")
unfolding normalize_name
windows_path_test = refl

traversal_test : normalize_name ascii (codes "a/../../b") ≡ err unsafe_path
unfolding normalize_name
traversal_test = refl

device_test : normalize_name ascii (codes "a/nul.txt") ≡ err reserved_name
unfolding normalize_name
device_test = refl

normalize_name-stays_inside_example :
    (ps : List (List ℕ)) × (is_empty ps ≡ false)
    × All (Proper ascii) ps
    × (walk (codes "home" ∷ []) (split (codes "Default/Cache/F")) ≡ below (codes "home" ∷ []) ps)
normalize_name-stays_inside_example =
    normalize_name-stays_inside ascii (codes "Default\\Cache//F")
      (name_of "Default/Cache/F" "default/cache/f") (codes "home" ∷ []) windows_path_test

abbrev u16 : ℕ → List ℕ
u16 n = n % 256 ∷ n / 256 % 256 ∷ []

abbrev u32 : ℕ → List ℕ
u32 n = u16 n ++ u16 (n / 65536)

-- A central record of a stored file, and the end of a central directory.
abbrev central_record : String → ℕ → List ℕ
central_record name size =
    u32 33639248
    ++ (u32 0
        ++ (u16 0
            ++ (u16 0
                ++ (u32 0
                    ++ (u32 0
                        ++ (u32 size
                            ++ (u32 size
                                ++ (u16 (length (codes name))
                                    ++ (u16 0
                                        ++ (u16 0
                                            ++ (u32 0
                                                ++ (u16 0
                                                    ++ (u16 0 ++ (u32 0 ++ codes name))))))))))))))

abbrev end_of : ℕ → List ℕ → List ℕ
end_of count central =
    central
    ++ (u32 101010256
        ++ (u32 0 ++ (u16 count ++ (u16 count ++ (u32 (length central) ++ (u32 0 ++ u16 0))))))

abbrev reader : Limits → ℕ → Reader
reader limits size = record { letters = ascii; decode = some; limits = limits; size = size }

abbrev entry : String → String → (directory : Bool) → ℕ → Entry
entry n k d size = record {
  name = codes n;
  key = codes k;
  directory = d;
  file_size = size;
  compressed_size = size;
  compression = 0;
  external_attributes = 0;
}

abbrev two_files : List ℕ
two_files = end_of 2 (central_record "A/x" 3 ++ central_record "b" 5)

two_files_test :
    read_central_directory (reader archive_limits 118) two_files
    ≡ some (ok (entry "b" "b" false 5 ∷ entry "A/x" "a/x" false 3 ∷ []))
unfolding read_central_directory validate_limits is_symlink normalize_name is_directory_entry
    disposable
two_files_test = refl

read_central_directory-Sound_example :
    (c : Checked (List Entry)) × (read_central_directory (reader archive_limits 118) two_files
      ≡ some c)
    × Promised (reader archive_limits 118) c
read_central_directory-Sound_example =
    read_central_directory-Sound (reader archive_limits 118) two_files

-- A file on the way of an entry before it, with a key of other letters.
under_file_test :
    read_central_directory
      (reader archive_limits 118)
      (end_of 2 (central_record "a/x" 3 ++ central_record "A" 5))
    ≡ some (err conflicting_path)
unfolding read_central_directory validate_limits is_symlink normalize_name is_directory_entry
    disposable
under_file_test = refl

-- A file where an entry before it is a directory's: only files are looked for.
file_at_directory_test :
    read_central_directory
      (reader archive_limits 119)
      (end_of 2 (central_record "a/b/" 0 ++ central_record "a" 0))
    ≡ some (ok (entry "a" "a" false 0 ∷ entry "a/b" "a/b" true 0 ∷ []))
unfolding read_central_directory validate_limits is_symlink normalize_name is_directory_entry
    disposable
file_at_directory_test = refl

-- The limit on files is tested on the number that the archive's end gives, and here the end says one.
uncounted_test :
    read_central_directory
      (reader (record archive_limits { max_files = 1 }) 118)
      (end_of 1 (central_record "A/x" 3 ++ central_record "b" 5))
    ≡ some (ok (entry "b" "b" false 5 ∷ entry "A/x" "a/x" false 3 ∷ []))
unfolding read_central_directory validate_limits is_symlink normalize_name is_directory_entry
    disposable
uncounted_test = refl
