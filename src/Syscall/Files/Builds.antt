-- ===== src/Syscall/Files/Builds.antt =====
-- The open flags of the two builds of `sys_open` (src/syscall/backend_win32.c).
use fake_kernel.Prelude.{ℕ, ◌%◌, ◌≡◌, ◌≢◌, arith, Bool, true, false, ◌==◌, not, has_bit}
use fake_kernel.Machine.{
  OpenFlags, Access, Creation, open_existing, create_always, open_always, truncate_existing,
}
use fake_kernel.Syscall.Posix.{remap_flags}
use fake_kernel.Syscall.Win32.{access_of, creation_of}

-- What a host does with the file: which accesses it allows, whether it makes a file that is not
-- there, and whether it empties one that is.
pub record Intent : Type 0 where
  pub reads : Bool
  pub writes : Bool
  pub creates : Bool
  pub empties : Bool

-- As the documentation of `open` has it.
abbrev pub posix_intent : OpenFlags → Intent
posix_intent o = record {
  reads = not (o.access == 1);
  writes = not (o.access == 0);
  creates = o.creat;
  empties = o.trunc;
}

abbrev creates_file : Creation → Bool
creates_file open_existing = false
creates_file create_always = true
creates_file open_always = true
creates_file truncate_existing = false

abbrev empties_file : Creation → Bool
empties_file open_existing = false
empties_file create_always = true
empties_file open_always = false
empties_file truncate_existing = true

-- As the documentation of `CreateFileA` has it.
abbrev pub win32_intent : Access → Creation → Intent
win32_intent a c = record {
  reads = a.generic_read;
  writes = a.generic_write;
  creates = creates_file c;
  empties = empties_file c;
}

abbrev pub intents : ℕ → Intent × Intent
intents flags =
    (posix_intent (remap_flags flags), win32_intent (access_of flags) (creation_of flags))

creation_of-creates : (flags : ℕ) → creates_file (creation_of flags) ≡ has_bit flags 6
creation_of-creates flags = ground arith

creation_of-empties : (flags : ℕ) → empties_file (creation_of flags) ≡ has_bit flags 9
creation_of-empties flags = ground arith

access_low :
    (flags : ℕ)
    → flags % 4 ≢ 3
    → ((access_of flags).generic_read ≡ not ((remap_flags flags).access == 1))
      × ((access_of flags).generic_write ≡ not ((remap_flags flags).access == 0))
access_low flags low = ground arith

pub access_of-remap_flags :
    (flags : ℕ)
    → flags % 4 ≢ 3
    → (posix_intent (remap_flags flags) ≡ win32_intent (access_of flags) (creation_of flags))
access_of-remap_flags flags low =
    ground (arith, access_low flags low, creation_of-creates flags, creation_of-empties flags)
