-- ===== src/Health/ProbeLaws.antt =====
-- src/health.rs: the probe ends, within bounds, and says what the status line says.
use flo.Base.{
  ◌⊎◌, ℕ, zero, suc, ◌+◌, ◌≤◌, ◌<◌, ◌≡◌, refl, ap, inl, inr, Bool, false, Option, none, some, List,
  [], ◌∷◌, ◌++◌, Str, codes, leb, length, length-append, Lacks, contains_char, starts_with, arith,
  Bool-cases,
}
use flo.Health.Probe.{
  Read, bytes, failed, read_loop, line, first_line, is_success, Network, probe, probe_parts,
  probe_port, answered, parse_u16, rsplit_once,
}

-- `read` fills at most its buffer of 512 bytes.
abbrev pub FitsBuffer : Read → Type 0
FitsBuffer (bytes bs) = length bs ≤ 512
FitsBuffer failed = Unit

-- The loop ends after at most 512 reads, with at most 1023 bytes, whatever the peer sends.
read_loop-ends :
    (fuel : ℕ) (reads : ℕ → Read) (i : ℕ) (received : List ℕ)
    → ((j : ℕ) → FitsBuffer (reads j))
    → length received < 512
    → 512 ≤ length received + fuel
    → (r : List ℕ) × (read_loop fuel reads i received ≡ some r) × (length r ≤ 1023)
unfolding read_loop
read_loop-ends zero reads i received fits short enough = absurd (ground arith)
read_loop-ends (suc fuel) reads i received fits short enough =
    go (reads i) refl (λ r h k. read_loop-ends fuel reads (suc i) r fits h k)
  where
    go :
        (r : Read)
        → reads i ≡ r
        → ((now : List ℕ)
            → length now < 512
            → 512 ≤ length now + fuel
            → (out : List ℕ) × (read_loop fuel reads (suc i) now ≡ some out) × (length out ≤ 1023))
        → (out : List ℕ) × (read_loop (suc fuel) reads i received ≡ some out) × (length out ≤ 1023)
    go failed e later = (received, rw (read_loop, e) refl, omega arith)
    go (bytes []) e later = (received, rw (read_loop, e) refl, omega arith)
    go (bytes (b ∷ bs)) e later =
        let now = received ++ b ∷ bs in
        let size = length-append received (b ∷ bs) in
        let within : length (b ∷ bs) ≤ 512 = rw e at (fits i) in
        elim (Bool-cases (contains_char b'\n' (received ++ b ∷ bs))) [
          | inl k ↦ (now, rw (read_loop, e, k) refl, omega (arith, size, within))
          | inr k ↦ elim (Bool-cases (leb 512 (length (received ++ b ∷ bs)))) [
            | inl k' ↦ (now, rw (read_loop, e, k, k') refl, omega (arith, size, within))
            | inr k' ↦
                let (out, h, bound) =
                  later (received ++ b ∷ bs) (ground arith) (omega (arith, size, enough)) in
                (out, rw (read_loop, e, k, k') h, bound)
          ]
        ]

-- A line starts with a text that holds no end of line exactly if the whole text does.
starts_with-line :
    (p s : Str) → Lacks b'\n' p → Lacks b'\r' p → starts_with p (line s) ≡ starts_with p s
unfolding starts_with line
starts_with-line [] s h k = refl
starts_with-line (c ∷ p) [] h k = refl
starts_with-line (c ∷ p) (d ∷ s) h k = ground (arith, starts_with-line p s)

success_lem : (s : Str) → is_success (first_line s) ≡ starts_with (codes "HTTP/1.1 200") s
unfolding first_line
success_lem [] = refl
success_lem (c ∷ s) = starts_with-line (codes "HTTP/1.1 200") (c ∷ s) refl refl

parse_u16-le : (s : Str) {n : ℕ} → parse_u16 s ≡ some n → n ≤ 65535
unfolding parse_u16
parse_u16-le s h = ground arith

module _ (net : Network) where
  abbrev pub FitsBuffers : Type 0
  FitsBuffers =
      (ip : net.Ip) (port : ℕ) (request : Str) (reads : ℕ → Read)
      → net.exchange ip port request ≡ some reads
      → (j : ℕ) → FitsBuffer (reads j)

  -- A result of the probe: a refusal, or what the status line of a peer says.
  abbrev pub IsVerdict : Option Bool → Type 0
  IsVerdict result =
      (result ≡ some false)
      ⊎ ((ip : net.Ip) × (port : ℕ) × (request : Str) × (reads : ℕ → Read) × (received : List ℕ)
          × (port ≤ 65535)
          × (net.exchange ip port request ≡ some reads)
          × (read_loop 512 reads 0 [] ≡ some received)
          × (result ≡ some (starts_with (codes "HTTP/1.1 200") (net.from_utf8_lossy received))))

  answered_lem :
      (ip : net.Ip) (port : ℕ) (request : Str) (r : Option (ℕ → Read))
      → net.exchange ip port request ≡ r
      → port ≤ 65535
      → FitsBuffers
      → IsVerdict (answered net 512 r)
  answered_lem ip port request none e bound fits = inl refl
  answered_lem ip port request (some reads) e bound fits =
      let (received, ends, size) =
        read_loop-ends 512 reads 0 [] (fits ip port request reads e) (ground arith)
          (ground arith) in
      inr (
        ip,
        port,
        request,
        reads,
        received,
        bound,
        e,
        ends,
        rw ends (ap some (success_lem (net.from_utf8_lossy received))),
      )

  port_lem :
      (target : Str) (port : Option ℕ)
      → ((n : ℕ) → port ≡ some n → n ≤ 65535)
      → FitsBuffers
      → IsVerdict (probe_port net 512 target port)
  port_lem target none bound fits = inl refl
  port_lem target (some port) bound fits = answered_lem _ port _ _ refl (bound port refl) fits

  parts_lem : (parts : Option (Str × Str)) → FitsBuffers → IsVerdict (probe_parts net 512 parts)
  parts_lem none fits = inl refl
  parts_lem (some (host, port)) fits = port_lem _ (parse_u16 port) (λ n h. parse_u16-le port h) fits

  -- Whatever the address is and whatever the peer sends, as long as a read fits its buffer, 512 reads
  -- are enough: the probe answers no, or it has reached a peer on a port of 16 bits and answers
  -- whether the text received begins with `HTTP/1.1 200`.
  pub probe-ends : (addr : Str) → FitsBuffers → IsVerdict (probe net 512 addr)
  unfolding probe
  probe-ends addr fits = parts_lem (rsplit_once b':' addr) fits
