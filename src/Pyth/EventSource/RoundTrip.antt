-- ===== src/Pyth/EventSource/RoundTrip.antt =====
-- pyth/streaming.go: a stream of events and what the reader makes of it.
use pricefeeding.Prelude.{
  ℕ, ◌≡◌, ◌≢◌, refl, sym, ap, ◌∙◌, true, false, List, [], ◌∷◌, ◌++◌, none, arith, eqb, leb, ◌&&◌,
  inl, inr, Bool-cases, All, All-append,
}
use mathlib.Core.List.{append_assoc, append-nil}
use pricefeeding.Prelude.Key.{GoString, bytes}
use pricefeeding.Pricefeed.PriceCache.{cut_prefix}
use pricefeeding.Strings.{
  is_space, is_space_rune, space_width, trim_left_from, trim_left, keep, trim_right, trim_space,
}
use pricefeeding.Pyth.EventSource.{
  EventSource, handle_message, handle_line, Reader, receive_byte, receive,
}

pub data Field : Type 0 where
  message_field event_field id_field retry_field : GoString → Field
  blank_line : Field

-- A line of the stream, without its newline.
abbrev pub line_of : Field → GoString
line_of (message_field m) = bytes "data: " ++ m
line_of (event_field s) = bytes "event: " ++ s
line_of (id_field s) = bytes "id: " ++ s
line_of (retry_field s) = bytes "retry: " ++ s
line_of blank_line = []

unfoldable pub print : List Field → GoString
print [] = []
print (f ∷ fs) = line_of f ++ b'\n' ∷ print fs

abbrev pub messages_of : List Field → List GoString
messages_of [] = []
messages_of (message_field m ∷ fs) = m ∷ messages_of fs
messages_of (event_field s ∷ fs) = messages_of fs
messages_of (id_field s ∷ fs) = messages_of fs
messages_of (retry_field s ∷ fs) = messages_of fs
messages_of (blank_line ∷ fs) = messages_of fs

-- The text has a last byte, which is a visible ASCII character.
abbrev pub IsSolid : GoString → Type 0
IsSolid [] = ⊥
IsSolid (c ∷ []) = (leb 33 c && leb c 126) ≡ true
IsSolid (c ∷ d ∷ s) = IsSolid (d ∷ s)

abbrev pub IsOneLine : GoString → Type 0
IsOneLine s = All (λ c. c ≢ b'\n') s

abbrev pub IsPrintable : Field → Type 0
IsPrintable (message_field m) = IsOneLine m × IsSolid m
IsPrintable (event_field s) = IsOneLine s
IsPrintable (id_field s) = IsOneLine s
IsPrintable (retry_field s) = IsOneLine s
IsPrintable blank_line = Unit

-- A reader at the start of a line, on a source that is open and has a handler.
pub record IsReading (r : Reader) : Type 0 where
  pub fresh : r.line ≡ []
  pub going : r.over ≡ false
  pub open_source : r.source.closed ≡ false
  pub handled : r.source.message_handler ≡ true

solid-space : (s : GoString) → IsSolid s → is_space_rune s ≡ false
unfolding is_space_rune is_space
solid-space [] h = refl
solid-space (c ∷ []) h = ground arith
solid-space (c ∷ d ∷ []) h = ground arith
solid-space (c ∷ d ∷ e ∷ []) h = ground arith
solid-space (c ∷ d ∷ e ∷ f ∷ s) h = refl

keep-solid : (c : ℕ) (s : GoString) → IsSolid (c ∷ s) → keep c s ≡ c ∷ s
unfolding keep
keep-solid c s h = rw (solid-space (c ∷ s) h) refl

trim_right-solid : (s : GoString) → IsSolid s → trim_right s ≡ s
unfolding trim_right
trim_right-solid [] h = absurd h
trim_right-solid (c ∷ []) h = keep-solid c [] h
trim_right-solid (c ∷ d ∷ s) h = rw (trim_right-solid (d ∷ s) h) (keep-solid c (d ∷ s) h)

trim_right-newline : (s : GoString) → trim_right (s ++ b'\n' ∷ []) ≡ trim_right s
unfolding trim_right keep is_space_rune is_space
trim_right-newline [] = refl
trim_right-newline (c ∷ s) = ap (keep c) (trim_right-newline s)

append-IsSolid : (s t : GoString) → IsSolid t → IsSolid (s ++ t)
append-IsSolid [] t h = h
append-IsSolid (c ∷ []) [] h = absurd h
append-IsSolid (c ∷ []) (d ∷ t) h = h
append-IsSolid (c ∷ d ∷ s) t h = append-IsSolid (d ∷ s) t h

add_messages : List GoString → Reader → Reader
add_messages l r = record r { source = record r.source { messages = r.source.messages ++ l } }

receive_byte-newline :
    (r : Reader)
    → r.over ≡ false
    → r.source.closed ≡ false
    → receive_byte b'\n' r
      ≡ record r { source = handle_line (r.line ++ b'\n' ∷ []) r.source; line = [] }
unfolding receive_byte
receive_byte-newline r o c = simp (o, c) refl

receive_byte-other :
    (d : ℕ) (r : Reader)
    → d ≢ b'\n'
    → r.over ≡ false
    → r.source.closed ≡ false
    → receive_byte d r ≡ record r { line = r.line ++ d ∷ [] }
unfolding receive_byte
receive_byte-other d r h o c = let e : eqb d b'\n' ≡ false = ground arith in simp (o, c, e) refl

receive-line :
    (s rest : GoString) (r : Reader)
    → IsOneLine s
    → r.over ≡ false
    → r.source.closed ≡ false
    → receive (s ++ b'\n' ∷ rest) r
      ≡ receive rest
          (record r { source = handle_line (r.line ++ (s ++ b'\n' ∷ [])) r.source; line = [] })
unfolding receive
receive-line [] rest r h o c = ap (receive rest) (receive_byte-newline r o c)
receive-line (d ∷ s) rest r h o c =
    ap (receive (s ++ b'\n' ∷ rest)) (receive_byte-other d r h.0 o c)
    ∙ receive-line s rest (record r { line = r.line ++ d ∷ [] }) h.1 o c
    ∙ ap (λ l. receive rest (record r { source = handle_line l r.source; line = [] }))
        (append_assoc r.line (d ∷ []) (s ++ b'\n' ∷ []))

line-message :
    (line m : GoString) (es : EventSource)
    → trim_space line ≡ bytes "data: " ++ m
    → handle_line line es ≡ handle_message m es
unfolding handle_line cut_prefix
line-message line m es h = rw (h, handle_line) refl

line-other :
    (line : GoString) (es : EventSource)
    → cut_prefix (bytes "data: ") (trim_space line) ≡ none
    → handle_line line es ≡ es
unfolding handle_line
line-other line es h = rw (h, handle_line) refl

cut_prefix-keep : (c : ℕ) (s : GoString) → c ≢ b'd' → cut_prefix (bytes "data: ") (keep c s) ≡ none
unfolding cut_prefix keep
cut_prefix-keep c s h = elim (Bool-cases (is_space_rune (c ∷ s))) [
  | inl e ↦ rw e refl
  | inr e ↦ rw e (ground arith)
]

message-trim_space :
    (m : GoString)
    → IsSolid m
    → trim_space (bytes "data: " ++ m ++ b'\n' ∷ []) ≡ bytes "data: " ++ m
unfolding trim_space trim_left trim_left_from space_width is_space_rune is_space
message-trim_space m h =
    trim_right-newline (bytes "data: " ++ m)
    ∙ trim_right-solid (bytes "data: " ++ m) (append-IsSolid (bytes "data: ") m h)

-- What a line of a field does to the source.
handle_line-field :
    (f : Field) (es : EventSource)
    → IsPrintable f
    → es.message_handler ≡ true
    → handle_line (line_of f ++ b'\n' ∷ []) es
      ≡ record es { messages = es.messages ++ messages_of (f ∷ []) }
unfolding trim_space trim_left trim_left_from space_width is_space_rune is_space trim_right keep
    handle_message cut_prefix
handle_line-field (message_field m) es h e =
    line-message _ m es (message-trim_space m h.1) ∙ simp e refl
handle_line-field (event_field s) es h e =
    line-other (bytes "event: " ++ s ++ b'\n' ∷ []) es (cut_prefix-keep b'e' _ (omega arith))
    ∙ simp (append-nil es.messages) refl
handle_line-field (id_field s) es h e =
    line-other (bytes "id: " ++ s ++ b'\n' ∷ []) es (cut_prefix-keep b'i' _ (omega arith))
    ∙ simp (append-nil es.messages) refl
handle_line-field (retry_field s) es h e =
    line-other (bytes "retry: " ++ s ++ b'\n' ∷ []) es (cut_prefix-keep b'r' _ (omega arith))
    ∙ simp (append-nil es.messages) refl
handle_line-field blank_line es h e =
    line-other (b'\n' ∷ []) es refl ∙ simp (append-nil es.messages) refl

line_of-IsOneLine : (f : Field) → IsPrintable f → IsOneLine (line_of f)
line_of-IsOneLine (message_field m) h =
    All-append (λ c. c ≢ b'\n') (bytes "data: ") m (omega arith) h.0
line_of-IsOneLine (event_field s) h =
    All-append (λ c. c ≢ b'\n') (bytes "event: ") s (omega arith) h
line_of-IsOneLine (id_field s) h = All-append (λ c. c ≢ b'\n') (bytes "id: ") s (omega arith) h
line_of-IsOneLine (retry_field s) h =
    All-append (λ c. c ≢ b'\n') (bytes "retry: ") s (omega arith) h
line_of-IsOneLine blank_line h = tt

messages_of-cons :
    (f : Field) (fs : List Field) → messages_of (f ∷ fs) ≡ messages_of (f ∷ []) ++ messages_of fs
messages_of-cons (message_field m) fs = refl
messages_of-cons (event_field s) fs = refl
messages_of-cons (id_field s) fs = refl
messages_of-cons (retry_field s) fs = refl
messages_of-cons blank_line fs = refl

-- A reader between two fields after the field `f`.
receive-field :
    (f : Field) (rest : GoString) (r : Reader)
    → IsPrintable f
    → IsReading r
    → receive (line_of f ++ b'\n' ∷ rest) r ≡ receive rest (add_messages (messages_of (f ∷ [])) r)
unfolding add_messages
receive-field f rest r h k =
    receive-line (line_of f) rest r (line_of-IsOneLine f h) k.going k.open_source
    ∙ ap (receive rest) (simp (k.fresh, handle_line-field f r.source h k.handled) refl)

add_messages-add_messages :
    (l m : List GoString) (r : Reader) → add_messages m (add_messages l r) ≡ add_messages (l ++ m) r
unfolding add_messages
add_messages-add_messages l m r = simp append_assoc refl

-- Where a source is open and has a message handler, and the reader is at the start of a line: of printed
-- events, ids, retry intervals, blank lines and messages, none with a newline inside, the handler gets
-- the messages in their order, as they were printed, as long as each ends in a visible ASCII character; and
-- the reader goes on with the rest of the body in the same state.
pub receive-print :
    (fs : List Field) (rest : GoString) (r : Reader)
    → All IsPrintable fs
    → IsReading r
    → receive (print fs ++ rest) r
      ≡ receive rest
          (record r { source = record r.source { messages = r.source.messages ++ messages_of fs } })
unfolding print add_messages
receive-print [] rest r h k = simp (append-nil r.source.messages) refl
receive-print (f ∷ fs) rest r h k =
    ap (λ s. receive s r) (append_assoc (line_of f) (b'\n' ∷ print fs) rest)
    ∙ receive-field f (print fs ++ rest) r h.0 k
    ∙ receive-print fs rest (add_messages (messages_of (f ∷ [])) r) h.1 (record {
      fresh = k.fresh;
      going = k.going;
      open_source = k.open_source;
      handled = k.handled;
    })
    ∙ ap (receive rest) (add_messages-add_messages (messages_of (f ∷ [])) (messages_of fs) r)
    ∙ ap (λ l. receive rest (add_messages l r)) (sym (messages_of-cons f fs))
