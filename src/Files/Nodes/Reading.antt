-- ===== src/Files/Nodes/Reading.antt =====
-- Reading a file that was opened.
use sbu_operating_system.Prelude.{
  ℕ, zero, suc, ◌+◌, ◌-◌, ◌*◌, ◌%◌, ◌^◌, ◌≤◌, ◌<◌, ◌≡◌, ◌≢◌, ◌∙◌, ◌⊎◌, refl, arith, ap, min, true,
  false, Option, some, List, [], ◌∷◌, length, get_elem?, update, ltb, ◌==◌, if◌then◌else◌, pos, ℤ,
}
use sbu_operating_system.CString.{Memory, memcpy}
use sbu_operating_system.CString.Block.{memcpy_lem}
use sbu_operating_system.Process.{Descriptor, getfd, enter_fd}
use sbu_operating_system.Process.Descriptors.{node_at, open_close}
use sbu_operating_system.CString.Number.{from_digits}
use sbu_operating_system.Files.Size.{from_octal}
use sbu_operating_system.Files.Archive.{Node}
use sbu_operating_system.Files.Archive.Layout.{Entry, size_of, IsHeader}
use sbu_operating_system.Files.Archive.Entered.{IsHeader-Fields}
use sbu_operating_system.Files.Nodes.{open_file, read_file}
use sbu_operating_system.Files.Nodes.Found.{IsNode, NoneBetween, EndsAt, find_node-first}

-- `count` bytes from `from` on, and a zero byte, stand at `buf`; nothing else has changed.
pub record IsRead (m : Memory) (from buf count : ℕ) (result : Option (Memory × ℤ)) : Type 0 where
  pub memory : Memory
  pub returns : result ≡ some (memory, pos count)
  pub bytes : (k : ℕ) → k < count → memory (buf + k) ≡ m (from + k)
  pub ended : memory (buf + count) ≡ 0
  pub outside : (a : ℕ) → (a < buf) ⊎ (buf + count < a) → memory a ≡ m a

node_at-some :
    (fds : List Descriptor) (fd i : ℕ)
    → node_at fds fd ≡ some i
    → (d : Descriptor) × (get_elem? fds fd ≡ some d) × (d.node ≡ some i)
node_at-some [] fd i h = absurd (cc h)
node_at-some (d ∷ ds) zero i h = (d, refl, h)
node_at-some (d ∷ ds) (suc fd) i h = node_at-some ds fd i h

from_octal-from_digits : (a b : ℕ) (ds : List ℕ) → a ≤ b → from_octal a ds ≤ from_digits b ds
from_octal-from_digits a b [] le = le
from_octal-from_digits a b (d ∷ ds) le =
    from_octal-from_digits (a * 8 + d) (b * 10 + d) ds (omega arith)

size_of-fits : (e : Entry) → from_digits 0 e.digits < 2 ^ 31 → size_of e < 2 ^ 31
size_of-fits e fits = omega (arith, from_octal-from_digits 0 0 e.digits (omega arith))

read_file-IsRead :
    (fuel : ℕ) (m : Memory) (nodes : ℕ → Node) (fds : List Descriptor) (fd i buf size : ℕ)
    (e : Entry)
    → node_at fds fd ≡ some i
    → (nodes i).header_address ≢ 0
    → IsHeader m (nodes i).header_address e
    → 93 ≤ fuel
    → (buf ≤ (nodes i).header_address + 512)
      ⊎ ((nodes i).header_address + 512 + min (size_of e) size ≤ buf)
    → IsRead m
        ((nodes i).header_address + 512)
        buf
        (min (size_of e) size)
        (read_file fuel m nodes fds fd buf size)
unfolding read_file
read_file-IsRead fuel m nodes fds fd i buf size e at nonzero h enough apart =
    let address = (nodes i).header_address in
    let f = IsHeader-Fields fuel m address e h enough in
    let (d, found, node) = node_at-some fds fd i at in
    let small = size_of-fits e h.fits in
    let whole : size_of e % 2 ^ 32 ≡ size_of e = omega (arith, small) in
    let positive : ltb (size_of e) (2 ^ 31) ≡ true = ground (arith, small) in
    let count = if ltb (size_of e) size then size_of e else size in
    let smaller : count ≡ min (size_of e) size = ground arith in
    let shown : (address == 0) ≡ false = ground arith in
    let copied = memcpy m buf (address + 512) count in
    let final : Memory = update copied (buf + count) 0 in
    record {
      memory = final;
      returns =
          rw (found, node, shown, f.size_field, f.size, whole, positive, read_file)
            (ap (λ n. some (final, pos n)) smaller);
      bytes = λ k lt.
          let place : address + 512 + (buf + k - buf) ≡ address + 512 + k = omega arith in
          ground (
            arith,
            smaller,
            ap m place,
            memcpy_lem count m buf (address + 512) (buf + k) (omega (arith, smaller)),
          );
      ended = ground (arith, smaller);
      outside = λ a o.
          ground
            (arith, smaller, memcpy_lem count m buf (address + 512) a (omega (arith, smaller)));
    }

taken : (k : ℕ) (a b : Option ℕ) → (if k == k then a else b) ≡ a
taken k a b = ground arith

-- Opening the first file with a name, in a table that ends before node 100 and with a free
-- descriptor, and then reading from the descriptor into a buffer that does not overlap the file,
-- gives as many bytes of the contents as were asked for, or all there are, and a zero byte behind
-- them; nothing else in memory changes.
pub open_file-read_file :
    (fuel : ℕ) (m : Memory) (nodes : ℕ → Node) (fds : List Descriptor) (name : List ℕ)
    (end i fd buf size : ℕ) (e : Entry)
    → EndsAt nodes 1 end
    → end < 100
    → 1 ≤ i
    → i < end
    → IsNode nodes name 0 i
    → NoneBetween nodes name 0 1 i
    → length fds ≡ 20
    → getfd fds ≡ some fd
    → (nodes i).header_address ≢ 0
    → IsHeader m (nodes i).header_address e
    → 93 ≤ fuel
    → (buf ≤ (nodes i).header_address + 512)
      ⊎ ((nodes i).header_address + 512 + min (size_of e) size ≤ buf)
    → (fds' : List Descriptor) × (open_file nodes fds name ≡ some (fds', fd))
      × IsRead m
          ((nodes i).header_address + 512)
          buf
          (min (size_of e) size)
          (read_file fuel m nodes fds' fd buf size)
unfolding open_file
open_file-read_file fuel m nodes fds name end i fd buf size e t room le lt node none? twenty free
      nonzero h enough apart =
    let found = find_node-first 99 1 end i nodes name 0 t (omega arith) le lt node none? in
    let (before, opened, closed) = open_close fds fd i twenty free in
    (
      enter_fd fds fd i,
      rw (found, free, open_file) refl,
      read_file-IsRead fuel m nodes (enter_fd fds fd i) fd i buf size e
          (opened fd ∙ taken fd (some i) (node_at fds fd)) nonzero h enough apart,
    )
