-- ===== src/Metrics/Net/Interfaces.antt =====
-- cpp/include/metrics.hpp: `read_net_sample` of the text that Linux shows in `/proc/net/dev`.
use sys_net_mon.Base.{
  ℕ, ◌+◌, ◌%◌, ◌≤◌, ◌<◌, false, some, List, [], ◌∷◌, ◌++◌, map, append-nil, Bytes, codes, ◌≡◌, refl,
  ap, sym, ◌∙◌, arith, length, length-map, length-append, All, All-append, All-map, Each, Lacks,
  leb, str_eq, if◌then◌else◌,
}
use mathlib.Core.List.{map-append}
use sys_net_mon.Text.{is_space, newline, trim}
use sys_net_mon.Text.Trim.{IsTrimmed, trim_unique}
use sys_net_mon.Decimal.{is_digit, format_ℕ}
use sys_net_mon.Decimal.RoundTrip.{format_ℕ_lem}
use sys_net_mon.Streams.{word, read_numbers, text_lines, cut_at}
use sys_net_mon.Streams.Numbers.{Spaced, IsSpaced, written, read_numbers-written}
use sys_net_mon.Streams.Lines.{text_lines-line, cut_at-append}
use sys_net_mon.Metrics.{NetSample, add64}
use sys_net_mon.Metrics.Cpu.{number_at}
use sys_net_mon.Metrics.Net.{
  no_net_sample, add_bytes, add_parts, add_lines, proc_net, read_net_sample,
}

-- A line of the file: the name, and sixteen counters, of which the first is what was received and
-- the ninth what was sent.
pub record Interface : Type 0 where
  pub pad : Bytes
  pub name : Bytes
  pub received : Spaced
  pub middle : List Spaced
  pub sent : Spaced
  pub more : List Spaced

abbrev pub counters : Interface → List Spaced
counters i = i.received ∷ (i.middle ++ i.sent ∷ i.more)

pub record IsInterface (i : Interface) : Type 0 where
  pub pad_blank : Each is_space i.pad
  pub pad_line : Lacks newline i.pad
  pub name_trimmed : IsTrimmed i.name
  pub name_line : Lacks newline i.name
  pub pad_colon : Lacks b':' i.pad
  pub name_colon : Lacks b':' i.name
  pub all_spaced : All IsSpaced (counters i)
  pub gap_lines : All (λ f. Lacks newline f.gap) (counters i)
  pub seven_middle : length i.middle ≡ 7
  pub seven_more : length i.more ≡ 7

unfoldable pub line_of : Interface → Bytes
line_of i = (i.pad ++ i.name) ++ b':' ∷ written (counters i) []

-- the file: two lines of headings, then a line for each interface
unfoldable pub lines_of : List Interface → Bytes
unfolding line_of
lines_of [] = []
lines_of (i ∷ is) = line_of i ++ newline ∷ lines_of is

abbrev pub file_of : Bytes → Bytes → List Interface → Bytes
file_of heading columns is = heading ++ newline ∷ (columns ++ newline ∷ lines_of is)

-- what the interfaces but the loopback received, and what they sent
unfoldable pub sum_of : (Interface → ℕ) → List Interface → ℕ
sum_of count [] = 0
sum_of count (i ∷ is) = (if str_eq i.name (codes "lo") then 0 else count i) + sum_of count is

digits-Lacks : (ds : Bytes) → Each is_digit ds → Lacks newline ds
unfolding is_digit
digits-Lacks = All-map (λ c h. ground arith)

written-Lacks :
    (fs : List Spaced) → All (λ f. Lacks newline f.gap) fs → Lacks newline (written fs [])
unfolding written
written-Lacks [] h = tt
written-Lacks (f ∷ fs) (h, hs) = All-append _ f.gap _ h (
    All-append _ (format_ℕ f.number) _ (digits-Lacks (format_ℕ f.number) (format_ℕ_lem f.number).1)
      (written-Lacks fs hs))

line_of-Lacks : (i : Interface) → IsInterface i → Lacks newline (line_of i)
unfolding line_of
line_of-Lacks i h =
    All-append _ (i.pad ++ i.name) _ (All-append _ i.pad i.name h.pad_line h.name_line)
      (omega arith, written-Lacks (counters i) h.gap_lines)

text_lines-lines_of :
    (is : List Interface) → All IsInterface is → text_lines (lines_of is) ≡ map line_of is
unfolding text_lines lines_of
text_lines-lines_of [] h = refl
text_lines-lines_of (i ∷ is) (h, hs) =
    text_lines-line (line_of i) (lines_of is) (line_of-Lacks i h)
    ∙ ap (λ x. line_of i ∷ x) (text_lines-lines_of is hs)

number_at-append : (ms : List ℕ) (n : ℕ) (ns : List ℕ) → number_at (length ms) (ms ++ n ∷ ns) ≡ n
unfolding number_at
number_at-append [] n ns = refl
number_at-append (m ∷ ms) n ns = number_at-append ms n ns

-- the numbers of an interface
numbers : Interface → List ℕ
numbers i = map (λ f. f.number) (counters i)

first_number : (i : Interface) → number_at 0 (numbers i) ≡ i.received.number
unfolding number_at numbers
first_number i = refl

ninth_number : (i : Interface) → IsInterface i → number_at 8 (numbers i) ≡ i.sent.number
unfolding number_at numbers
ninth_number i h =
    let number = λ (f : Spaced). f.number in
    let seven : length (map number i.middle) ≡ 7 = length-map i.middle number ∙ h.seven_middle in
    ap (number_at 7) (map-append number i.middle (i.sent ∷ i.more))
    ∙ ap (λ k. number_at k (map number i.middle ++ i.sent.number ∷ map number i.more)) (sym seven)
    ∙ number_at-append (map number i.middle) i.sent.number (map number i.more)

sixteen : (i : Interface) → IsInterface i → length (counters i) ≡ 16
sixteen i h = omega (arith, length-append i.middle (i.sent ∷ i.more), h.seven_middle, h.seven_more)

read_counters :
    (i : Interface) → IsInterface i → read_numbers 16 (some (written (counters i) [])) ≡ numbers i
unfolding numbers
read_counters i h =
    ap (λ k. read_numbers k (some (written (counters i) []))) (sym (sixteen i h))
    ∙ read_numbers-written (counters i) [] h.all_spaced tt

trim-name : (i : Interface) → IsInterface i → trim (i.pad ++ i.name) ≡ i.name
trim-name i h =
    ap (λ x. trim (i.pad ++ x)) (sym (append-nil i.name))
    ∙ trim_unique i.pad i.name [] h.pad_blank tt h.name_trimmed

-- what one line adds
add_parts-line :
    (i : Interface) (sample : NetSample)
    → IsInterface i
    → add_parts (cut_at b':' (line_of i)) sample ≡ (
        if str_eq i.name (codes "lo")
        then sample
        else add_bytes i.received.number i.sent.number sample)
unfolding line_of add_parts add_bytes add64
add_parts-line i sample h = rw (
  cut_at-append b':' (i.pad ++ i.name) (written (counters i) [])
      (All-append _ i.pad i.name h.pad_colon h.name_colon),
  trim-name i h,
  read_counters i h,
  first_number i,
  ninth_number i h,
)

abbrev rx_of : Interface → ℕ
rx_of i = i.received.number

abbrev tx_of : Interface → ℕ
tx_of i = i.sent.number

-- a sample and what some interfaces add to it
abbrev with_sums : List Interface → NetSample → NetSample
with_sums is sample = record {
  rx_bytes = (sample.rx_bytes + sum_of rx_of is) % word;
  tx_bytes = (sample.tx_bytes + sum_of tx_of is) % word;
}

with_sums-cons :
    (i : Interface) (is : List Interface) (sample : NetSample)
    → with_sums is (
        if str_eq i.name (codes "lo")
        then sample
        else add_bytes i.received.number i.sent.number sample)
      ≡ with_sums (i ∷ is) sample
unfolding sum_of add_bytes add64
with_sums-cons i is sample = ground arith

past_headings : (k : ℕ) → 2 ≤ k → leb (k + 1) 2 ≡ false
past_headings k late = ground arith

add_lines-lines :
    (k : ℕ) (is : List Interface) (sample : NetSample)
    → 2 ≤ k
    → sample.rx_bytes < word
    → sample.tx_bytes < word
    → All IsInterface is
    → add_lines k (map line_of is) sample ≡ with_sums is sample
unfolding add_lines
add_lines-lines k [] sample late rx_fits tx_fits h = unfold sum_of in ground arith
add_lines-lines k (i ∷ is) sample late rx_fits tx_fits (h, hs) =
    let next =
      if str_eq i.name (codes "lo")
      then sample
      else add_bytes i.received.number i.sent.number sample in
    ap
      (λ b.
        add_lines (k + 1) (map line_of is)
          (if b then sample else add_parts (cut_at b':' (line_of i)) sample))
      (past_headings k late)
    ∙ ap (add_lines (k + 1) (map line_of is)) (add_parts-line i sample h)
    ∙ (add_lines-lines (k + 1) is next (omega arith)
          (unfold add_bytes in unfold add64 in ground arith)
          (unfold add_bytes in unfold add64 in ground arith) hs
        ∙ with_sums-cons i is sample)

-- Of a file with a line for each interface, with sixteen counters each, the sample holds what all
-- interfaces but the loopback received and sent, modulo 2 ^ 64.
pub read_net_sample-file :
    (heading columns : Bytes) (is : List Interface)
    → Lacks newline heading
    → Lacks newline columns
    → All IsInterface is
    → read_net_sample (proc_net (some (file_of heading columns is))) ≡ record {
      rx_bytes = sum_of (λ i. i.received.number) is % word;
      tx_bytes = sum_of (λ i. i.sent.number) is % word;
    }
unfolding read_net_sample add_lines
read_net_sample-file heading columns is heading_line columns_line h =
    rw
      (
        text_lines-line heading (columns ++ newline ∷ lines_of is) heading_line,
        text_lines-line columns (lines_of is) columns_line,
        text_lines-lines_of is h,
      )
      (add_lines-lines 2 is no_net_sample (omega arith) (omega arith) (omega arith) h
        ∙ ground arith)
