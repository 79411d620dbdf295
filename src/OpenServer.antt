-- ===== src/OpenServer.antt =====
-- UnixAdvancedProgramming/ch16_socket: the server that opens files for its clients. Requests are
-- handled in open_server_v1.c, and the table of clients is in open_server_v2.c.
pub mod Requests
pub mod Table
mod Examples
use unix_advanced_programing.Prelude.{
  ℕ, zero, suc, ◌+◌, ◌-◌, ◌^◌, Bool, true, false, not, ◌&&◌, ◌||◌, Option, none, some, List, [],
  ◌∷◌, ◌++◌, length, get_elem?, set, replicate, if◌then◌else◌, ◌==◌, leb, ltb,
}
use unix_advanced_programing.Prelude.Int.{ℤ, pos, negsuc}

-- MAXARGCNUM
abbrev pub max_arg_num : ℕ
max_arg_num = 50

-- WHITE: tab and newline.
unfoldable pub is_white : ℕ → Bool
is_white c = c == b'\t' || c == b'\n'

-- A token, if any of it has been seen, before the others.
abbrev pub token : List ℕ → List (List ℕ) → List (List ℕ)
token [] others = others
token (c ∷ cs) others = (c ∷ cs) ∷ others

-- The tokens that `strtok` returns one after another, up to the zero byte; `word` is what has been seen
-- of the token under way.
unfoldable pub tokens : List ℕ → List ℕ → List (List ℕ)
unfolding is_white
tokens word [] = token word []
tokens word (b ∷ bs) =
    let ended = tokens [] bs in
    let longer = tokens (word ++ (b ∷ [])) bs in
    if b == 0 then token word [] else if is_white b then token word ended else longer

-- An element of `argv`; `none` is one that nothing has set.
abbrev pub Argv : Type 0
Argv = List (Option (List ℕ))

-- The `while` of `buf_args`, which counts each token twice: `argc` and `argv`, or `none` for too many.
unfoldable pub fill_args : ℕ → Argv → List (List ℕ) → Option (ℕ × Argv)
fill_args argc argv [] = some (argc, argv)
fill_args argc argv (t ∷ ts) =
    let rest = fill_args (argc + 1 + 1) (set argv (argc + 1 + 1) (some t)) ts in
    if leb (max_arg_num - 1) (argc + 1) then none else rest

-- `argv[i]`
abbrev pub element : Argv → ℕ → Option (List ℕ)
element [] i = none
element (a ∷ argv) zero = a
element (a ∷ argv) (suc i) = element argv i

-- CL_OPEN
abbrev pub cl_open : List ℕ
cl_open = b'o' ∷ b'p' ∷ b'e' ∷ b'n' ∷ []

unfoldable pub same : List ℕ → List ℕ → Bool
same [] [] = true
same [] (d ∷ ds) = false
same (c ∷ cs) [] = false
same (c ∷ cs) (d ∷ ds) = c == d && same cs ds

-- `cli_args`: the path and the flag, or `none` for -1.
unfoldable pub cli_args : ℕ → Argv → Option (Option (List ℕ) × Option (List ℕ))
unfolding same
cli_args argc argv =
    let first : Bool = elim (element argv 0) [ some name ↦ same name cl_open | none ↦ false ] in
    if not (argc == 3) || not first then none else some (element argv 1, element argv 2)

-- `buf_args` with `cli_args`; `argv[0]` is the buffer, whose first token is not looked at again.
unfoldable pub buf_args : List ℕ → Option (Option (List ℕ) × Option (List ℕ))
unfolding tokens fill_args cli_args
buf_args buf = elim (tokens [] buf) [
  | [] ↦ none
  | first ∷ others ↦ elim (fill_args 0 (set (replicate max_arg_num none) 0 (some buf)) others) [
    | none ↦ none
    | some (argc, argv) ↦ cli_args argc argv
  ]
]

-- What is sent to the client behind an error.
pub data Message : Type 0 where
  not_terminated errmsg cant_open : Message

-- The calls of `handle_request`.
pub record Calls : Type (0 + 1) where
  pub World : Type 0
  pub send_err : ℕ → Message → World → World
  pub open_file : Option (List ℕ) → Option (List ℕ) → World → ℤ × World
  pub send_fd : ℕ → ℤ → World → World
  pub close : ℤ → World → World

abbrev pub last_of : ℕ → List ℕ → ℕ
last_of b [] = b
last_of b (c ∷ cs) = last_of c cs

module _ (c : Calls) where
  open c use {World, send_err, open_file, send_fd, close}

  -- Behind `open`.
  unfoldable pub file_opened : ℕ → ℤ × World → World
  file_opened fd (pos n, w) = close (pos n) (send_fd fd (pos n) w)
  file_opened fd (negsuc n, w) = send_err fd cant_open w

  -- `handle_request` on the `nread` bytes that were read, at least one.
  unfoldable pub handle_request : ℕ → List ℕ → ℕ → World → World
  unfolding buf_args file_opened
  handle_request b bs fd w =
      if not (last_of b bs == 0) then send_err fd not_terminated w else elim (buf_args (b ∷ bs)) [
        | none ↦ send_err fd errmsg w
        | some (pathname, oflag) ↦ file_opened fd (open_file pathname oflag w)
      ]

-- NALLOC
abbrev pub nalloc : ℕ
nalloc = 10

-- `Client`; `fd` -1 marks a free entry.
pub record Client : Type 0 where
  pub fd : ℤ
  pub uid : ℕ

-- The allocated array, and `client_size`.
pub record Clients : Type 0 where
  pub client : List Client
  pub client_size : ℕ

unfoldable pub is_free : Client → Bool
is_free c = elim c.fd [ pos n ↦ false | negsuc n ↦ n == 0 ]

-- `client[i].fd = -1` for `n` entries from `i` on; `none` where an entry lies outside the array.
unfoldable pub init_entries : ℕ → ℕ → List Client → Option (List Client)
init_entries zero i l = some l
init_entries (suc n) i l = elim (get_elem? l i) [
  | none ↦ none
  | some c ↦ init_entries n (suc i) (set l i (record c { fd = negsuc 0 }))
]

-- The array of `client_size = NALLOC` entries that `realloc` gives: what fits of the old one.
unfoldable pub resize : ℕ → Client → List Client → List Client
resize zero junk l = []
resize (suc n) junk [] = junk ∷ resize n junk []
resize (suc n) junk (c ∷ cs) = c ∷ resize n junk cs

-- `client_alloc` where memory is left; an empty table is the null pointer.
unfoldable pub client_alloc : Client → Clients → Option Clients
unfolding init_entries resize
client_alloc junk t =
    let size : ℕ = elim t.client [ [] ↦ t.client_size | c ∷ cs ↦ nalloc ] in
    elim (init_entries nalloc size (resize nalloc junk t.client)) [
      | none ↦ none
      | some l ↦ some (record { client = l; client_size = size + nalloc })
    ]

-- The `for` of `client_add`: the entry taken, with its index.
unfoldable pub take_entry : ℕ → ℤ → ℕ → List Client → Option (ℕ × List Client)
unfolding is_free
take_entry i fd uid [] = none
take_entry i fd uid (c ∷ cs) =
    let rest = take_entry (suc i) fd uid cs in
    elim (is_free c) [
      | true ↦ some (i, record { fd = fd; uid = uid } ∷ cs)
      | false ↦ elim rest [ none ↦ none | some (j, ds) ↦ some (j, c ∷ ds) ]
    ]

-- The jump to `again` behind an allocation, with fuel; `none` is a write outside the array, or no fuel.
unfoldable pub client_add : ℕ → Client → ℤ → ℕ → Clients → Option (ℕ × Clients)
unfolding client_alloc take_entry
client_add zero junk fd uid t = none
client_add (suc n) junk fd uid t = elim (take_entry 0 fd uid t.client) [
  | some (i, l) ↦ some (i, record t { client = l })
  | none ↦ elim (client_alloc junk t) [ none ↦ none | some t' ↦ client_add n junk fd uid t' ]
]

abbrev pub same_fd : ℤ → ℤ → Bool
same_fd (pos a) (pos b) = a == b
same_fd (negsuc a) (negsuc b) = a == b
same_fd _ _ = false

-- `client_del`: the first entry with the descriptor becomes free.
unfoldable pub client_del : ℤ → List Client → List Client
client_del fd [] = []
client_del fd (c ∷ cs) =
    let rest = client_del fd cs in
    if same_fd c.fd fd then record c { fd = negsuc 0 } ∷ cs else c ∷ rest
