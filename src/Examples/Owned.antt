-- ===== src/Examples/Owned.antt =====
-- The theorems on the processes of a user.
use network_system_programmi.Base.{
  ◌≡◌, refl, none, some, [], ◌∷◌, ◌++◌, codes, pos, atoi, digits_value, strtok, skip_delims,
  scan_key, Key,
}
use Prim.Native.String.{String}
use network_system_programmi.Process.Status.{Entry}
use network_system_programmi.Process.Owned.{Found, lists, main}
use network_system_programmi.Process.Owned.Laws.{
  Status, fields, Listing, no_entry, other_file, process, main-Listing, main-stops,
}

abbrev shell_entry : Entry
shell_entry = record {
  d_name = codes "7";
  status = some (
      codes "Name:\tsh\n"
      ∷ codes "State:\tS (sleeping)\n"
      ∷ codes "Pid:\t7\n"
      ∷ codes "Uid:\t100\t100\n"
      ∷ codes "Gid:\t100\n"
      ∷ []);
}

abbrev bus_entry : Entry
bus_entry = record { d_name = codes "bus"; status = none }

abbrev shell_found : Found
shell_found = record { p_name = codes "sh"; pid = codes "7" }

abbrev key : String → String → Key
key token rest = record { token = codes token; rest = codes rest }

shell-Status :
    Status
      (codes "Name:\tsh\n"
        ∷ codes "State:\tS (sleeping)\n"
        ∷ codes "Pid:\t7\n"
        ∷ codes "Uid:\t100\t100\n"
        ∷ codes "Gid:\t100\n"
        ∷ [])
      (codes "sh")
      (codes "7")
      (atoi (codes "100"))
unfolding strtok skip_delims scan_key
shell-Status =
    fields (codes "State:\tS (sleeping)\n" ∷ []) [] (codes "Gid:\t100\n" ∷ [])
      (record {
        key = key "Name:" "sh\n";
        value = key "sh" "";
        is_key = refl;
        reads = refl;
        is_value = refl;
        token = refl;
      })
      (
        record {
          key = key "State:" "S (sleeping)\n";
          is_key = refl;
          no_name = refl;
          no_pid = refl;
          no_uid = refl;
        },
        tt,
      )
      (record {
        key = key "Pid:" "7\n";
        value = key "7" "";
        is_key = refl;
        reads = refl;
        is_value = refl;
        token = refl;
      })
      tt
      (record {
        key = key "Uid:" "100\t100\n";
        value = key "100" "100\n";
        is_key = refl;
        reads = refl;
        is_value = refl;
        token = refl;
      })
      (
        record {
          key = key "Gid:" "100\n";
          is_key = refl;
          no_name = refl;
          no_pid = refl;
          no_uid = refl;
        },
        tt,
      )

shell-Listing : Listing (pos 100) (bus_entry ∷ shell_entry ∷ []) (shell_found ∷ [])
unfolding atoi digits_value
shell-Listing = other_file bus_entry refl (process shell_entry _ refl refl shell-Status no_entry)

main-Listing_example :
    main (some (pos 100)) (bus_entry ∷ shell_entry ∷ []) ≡ lists (shell_found ∷ [])
main-Listing_example = main-Listing (pos 100) shell-Listing

abbrev gone : Entry
gone = record { d_name = codes "8"; status = none }

main-stops_example :
    main (some (pos 100)) ((bus_entry ∷ shell_entry ∷ []) ++ gone ∷ shell_entry ∷ [])
    ≡ lists (shell_found ∷ [])
unfolding atoi digits_value
main-stops_example = main-stops (pos 100) shell-Listing gone (shell_entry ∷ []) refl refl
