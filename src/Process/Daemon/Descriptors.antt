-- ===== src/Process/Daemon/Descriptors.antt =====
-- A process as `daemonize` sees it, what the calls do to it, and the loop that closes the descriptors.
use unix_advanced_programing.Prelude.{
  ℕ, zero, suc, ◌+◌, ◌<◌, ◌≤◌, ◌≡◌, ◌≢◌, ◌∙◌, refl, sym, ap, subst, ◌⊎◌, inl, inr, Bool, true,
  false, Bool-cases, ◌==◌, if◌then◌else◌, arith,
}
use unix_advanced_programing.Prelude.Int.{pos}
use unix_advanced_programing.Process.Daemon.{Calls, close_all}

-- What a descriptor refers to.
pub data File : Type 0 where
  closed dev_null : File
  another : (id : ℕ) → File

-- The properties of a process that `daemonize` is about.
pub record Process : Type 0 where
  pub files : ℕ → File
  pub mask : ℕ
  pub session_leader : Bool
  pub ignores_hup : Bool
  pub at_root : Bool

abbrev pub put : ℕ → File → (ℕ → File) → ℕ → File
put fd f files m = if m == fd then f else files m

-- Documented behaviour of the calls: each changes the one property that it is for. A child of `fork` leads
-- no session.
pub record IsUnix (c : Calls) : Type 0 where
  pub state : c.World → Process
  pub umask_law : (m : ℕ) (w : c.World) → state (c.umask m w) ≡ record (state w) { mask = m }
  pub getrlimit_law : (w : c.World) → state (c.getrlimit w).1 ≡ state w
  pub fork_law :
      (w w' : c.World)
      → c.fork w ≡ (pos 0, w')
      → state w' ≡ record (state w) { session_leader = false }
  pub setsid_law : (w : c.World) → state (c.setsid w) ≡ record (state w) { session_leader = true }
  pub hup_law :
      (w w' : c.World)
      → c.ignore_hup w ≡ (true, w')
      → state w' ≡ record (state w) { ignores_hup = true }
  pub chdir_law :
      (w w' : c.World)
      → c.chdir_root w ≡ (true, w')
      → state w' ≡ record (state w) { at_root = true }
  pub close_law :
      (fd : ℕ) (w : c.World)
      → state (c.close fd w) ≡ record (state w) { files = put fd closed (state w).files }
  pub open_law :
      (fd : ℕ) (w w' : c.World)
      → c.open_null w ≡ (pos fd, w')
      → state w' ≡ record (state w) { files = put fd dev_null (state w).files }
  pub dup_law :
      (old fd : ℕ) (w w' : c.World)
      → c.dup old w ≡ (pos fd, w')
      → state w' ≡ record (state w) { files = put fd ((state w).files old) (state w).files }
  pub openlog_law : (w : c.World) → state (c.openlog w) ≡ state w

-- The child of both forks, where no call fails and a new descriptor is the lowest one that is closed, where
-- one of the first three is.
pub record Succeeds {c : Calls} (k : IsUnix c) : Type 0 where
  pub fork_child : (w : c.World) → (c.fork w).0 ≡ pos 0
  pub hup_done : (w : c.World) → (c.ignore_hup w).0 ≡ true
  pub chdir_done : (w : c.World) → (c.chdir_root w).0 ≡ true
  pub open_lowest :
      (fd : ℕ) (w : c.World)
      → fd < 3
      → (k.state w).files fd ≡ closed
      → ((m : ℕ) → m < fd → (k.state w).files m ≢ closed)
      → (c.open_null w).0 ≡ pos fd
  pub dup_lowest :
      (old fd : ℕ) (w : c.World)
      → fd < 3
      → (k.state w).files old ≢ closed
      → (k.state w).files fd ≡ closed
      → ((m : ℕ) → m < fd → (k.state w).files m ≢ closed)
      → (c.dup old w).0 ≡ pos fd

module _ {c : Calls} (k : IsUnix c) where
  open c use {World, close}
  open k use {state, close_law}

  -- Out of the terminal's and of the parent's reach.
  abbrev pub Apart : Process → Type 0
  Apart p = (p.mask ≡ 0) × (p.session_leader ≡ false) × (p.ignores_hup ≡ true) × (p.at_root ≡ true)

  pub close_all-Apart : (n i : ℕ) (w : World) → Apart (state w) → Apart (state (close_all c n i w))
  unfolding close_all
  close_all-Apart zero i w apart = apart
  close_all-Apart (suc n) i w apart =
      close_all-Apart n (suc i) (close i w) (subst Apart (sym (close_law i w)) apart)

  -- The descriptors outside the range.
  close_all-rest :
      (n i : ℕ) (w : World) (m : ℕ)
      → (m < i) ⊎ (i + n ≤ m)
      → (state (close_all c n i w)).files m ≡ (state w).files m
  unfolding close_all
  close_all-rest zero i w m out = refl
  close_all-rest (suc n) i w m out =
      close_all-rest n (suc i) (close i w) m
        (elim out [ inl lt ↦ inl (omega arith) | inr ge ↦ inr (omega arith) ])
      ∙ ap (λ (p : Process). p.files m) (close_law i w)
      ∙ elim out [ inl lt ↦ ground arith | inr ge ↦ ground arith ]

  pub close_all-closed :
      (n i : ℕ) (w : World) (m : ℕ)
      → i ≤ m
      → m < i + n
      → (state (close_all c n i w)).files m ≡ closed
  unfolding close_all
  close_all-closed zero i w m le lt = absurd (omega arith)
  close_all-closed (suc n) i w m le lt = elim (Bool-cases (m == i)) [
    | inl same ↦
        close_all-rest n (suc i) (close i w) m (inl (ground arith))
        ∙ ap (λ (p : Process). p.files m) (close_law i w)
        ∙ ground arith
    | inr other ↦ close_all-closed n (suc i) (close i w) m (ground arith) (omega arith)
  ]
