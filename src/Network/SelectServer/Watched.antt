-- ===== src/Network/SelectServer/Watched.antt =====
-- What the server with `select` watches, against the connections that are open.
use unix_advanced_programing.Prelude.{
  ℕ, ◌+◌, ◌≤◌, ◌<◌, ◌≡◌, true, false, Option, none, some, List, get_elem?, ◌==◌,
}
use unix_advanced_programing.Prelude.Int.{pos}
use unix_advanced_programing.Network.SelectServer.{FdSet, fd_put, Calls, Server}
use unix_advanced_programing.Network.SelectServer.Entries.{ones, holders}

-- Documented behaviour of the calls. `opened` are the listening descriptor and the connections: `accept`
-- gives a descriptor that is not in use, and `close` takes one out.
pub record IsKernel (c : Calls) : Type 0 where
  pub opened : c.World → FdSet
  pub select_law :
      (n : ℕ) (l : FdSet) (w : c.World) (m : ℕ) → opened (c.select n l w).1 m ≡ opened w m
  pub accept_law :
      (fd n : ℕ) (w w' : c.World)
      → c.accept fd w ≡ (pos n, w')
      → (opened w n ≡ false) × ((m : ℕ) → opened w' m ≡ fd_put true n (opened w) m)
  pub read_law : (fd : ℕ) (w : c.World) (m : ℕ) → opened (c.read fd w).1 m ≡ opened w m
  pub close_law :
      (fd : ℕ) (w : c.World) (m : ℕ) → opened (c.close fd w) m ≡ fd_put false fd (opened w) m
  pub writen_law :
      (fd : ℕ) (bs : List ℕ) (w : c.World) (m : ℕ) → opened (c.writen fd bs w) m ≡ opened w m

module _ {c : Calls} (k : IsKernel c) (listenfd : ℕ) where
  open c use {World, select, accept, read, close, writen}
  open k use {opened, select_law, accept_law, read_law, close_law, writen_law}

  -- `allset` has the open descriptors, each of them once in the table or the one that listens, none above
  -- `maxfd`; and every connection stands at an entry that the loop comes to.
  pub record IsWatched (s : Server) (w : World) : Type 0 where
    pub all_open : (m : ℕ) → opened w m ≡ s.allset m
    pub once : (m : ℕ) → ones (s.allset m) ≡ ones (m == listenfd) + holders m s.client
    pub below : (m : ℕ) → s.allset m ≡ true → m ≤ s.maxfd
    pub in_scan : (i m : ℕ) → get_elem? s.client i ≡ some (pos m) → i < s.scanned

  -- `none` stands for the ends of the program.
  abbrev pub Watches : Option (Server × World) → Type 0
  Watches none = Unit
  Watches (some (s, w)) = IsWatched s w
