-- ===== src/Chat/Kept.antt =====
-- What every statement of the handlers of routes/chat.ts leaves alone in `chat_messages`: no row is lost, and
-- a row that is terminal keeps what it says. The relation holds from one table to a later one, where
-- the rows that are new have a property `P`; the rules below carry it through a `do` block.
use hill90_app.Chat.Store.{
  continue, pure, skip, when, log, attempt, draw_id, select, ◌>>=◌, AuditEntry, select, Message,
  Store, is_open, statement, update_rows, update_messages, insert_message,
}
use hill90_app.Prelude.{
  given, Option, if◌then◌else◌, subst, ◌∷◌, All, sym, List, suc, refl, ◌++◌, ℕ, ◌∙◌, [], inl, arith,
  inr, true, none, Bool, ap, some, ◌≡◌, false, ◌⊎◌, Bool-cases,
}
use hill90_app.Prelude.Exec.{Exec, Result, ok, thrown}

-- What the row says to its readers.
pub record SaysSame (m n : Message) : Type 0 where
  pub status : n.status ≡ m.status
  pub content : n.content ≡ m.content
  pub error_message : n.error_message ≡ m.error_message
  pub model : n.model ≡ m.model
  pub input_tokens : n.input_tokens ≡ m.input_tokens
  pub output_tokens : n.output_tokens ≡ m.output_tokens
  pub duration_ms : n.duration_ms ≡ m.duration_ms

-- An open row may change.
abbrev pub Frozen : Bool → Message → Message → Type 0
Frozen true m n = Unit
Frozen false m n = SaysSame m n

-- A row joins a chain at most once, and begins it.
abbrev pub ChainKept : Message → Message → Type 0
ChainKept m n =
    ((n.chain_id ≡ m.chain_id) × (n.chain_hop ≡ m.chain_hop))
    ⊎ ((m.chain_id ≡ none) × (n.chain_hop ≡ some 0))

-- The row `n` is the row `m` at a later time.
pub record IsKept (m n : Message) : Type 0 where
  pub id : n.id ≡ m.id
  pub thread_id : n.thread_id ≡ m.thread_id
  pub author_id : n.author_id ≡ m.author_id
  pub author_type : n.author_type ≡ m.author_type
  pub role : n.role ≡ m.role
  pub reply_to : n.reply_to ≡ m.reply_to
  pub triggered_by : n.triggered_by ≡ m.triggered_by
  pub created_at : n.created_at ≡ m.created_at
  pub chain : ChainKept m n
  pub frozen : Frozen (is_open m.status) m n

Frozen-refl : (b : Bool) (m : Message) → Frozen b m m
Frozen-refl true m = tt
Frozen-refl false m = ground arith

pub IsKept-refl : (m : Message) → IsKept m m
IsKept-refl m = record {
  id = refl;
  thread_id = refl;
  author_id = refl;
  author_type = refl;
  role = refl;
  reply_to = refl;
  triggered_by = refl;
  created_at = refl;
  chain = inl (refl, refl);
  frozen = Frozen-refl (is_open m.status) m;
}

ChainKept-trans : (m n p : Message) → ChainKept m n → ChainKept n p → ChainKept m p
ChainKept-trans m n p (inl (a, b)) (inl (c, d)) = inl (c ∙ a, d ∙ b)
ChainKept-trans m n p (inl (a, b)) (inr (c, d)) = inr (sym a ∙ c, d)
ChainKept-trans m n p (inr (a, b)) (inl (c, d)) = inr (a, d ∙ b)
ChainKept-trans m n p (inr (a, b)) (inr (c, d)) = inr (a, d)

SaysSame-trans : (m n p : Message) → SaysSame m n → SaysSame n p → SaysSame m p
SaysSame-trans m n p h k = record {
  status = k.status ∙ h.status;
  content = k.content ∙ h.content;
  error_message = k.error_message ∙ h.error_message;
  model = k.model ∙ h.model;
  input_tokens = k.input_tokens ∙ h.input_tokens;
  output_tokens = k.output_tokens ∙ h.output_tokens;
  duration_ms = k.duration_ms ∙ h.duration_ms;
}

Frozen-trans :
    (b : Bool) (m n p : Message)
    → is_open m.status ≡ b
    → Frozen b m n
    → Frozen (is_open n.status) n p
    → Frozen b m p
Frozen-trans true m n p e h k = tt
Frozen-trans false m n p e h k =
    SaysSame-trans m n p h (subst (λ c. Frozen c n p) (ap is_open h.status ∙ e) k)

IsKept-trans : (m n p : Message) → IsKept m n → IsKept n p → IsKept m p
IsKept-trans m n p h k = record {
  id = k.id ∙ h.id;
  thread_id = k.thread_id ∙ h.thread_id;
  author_id = k.author_id ∙ h.author_id;
  author_type = k.author_type ∙ h.author_type;
  role = k.role ∙ h.role;
  reply_to = k.reply_to ∙ h.reply_to;
  triggered_by = k.triggered_by ∙ h.triggered_by;
  created_at = k.created_at ∙ h.created_at;
  chain = ChainKept-trans m n p h.chain k.chain;
  frozen = Frozen-trans (is_open m.status) m n p refl h.frozen k.frozen;
}

-- The row `f m` in its place, where `f` changes open rows only.
pub IsKept-open :
    (m n : Message)
    → is_open m.status ≡ true
    → n.id ≡ m.id
    → n.thread_id ≡ m.thread_id
    → n.author_id ≡ m.author_id
    → n.author_type ≡ m.author_type
    → n.role ≡ m.role
    → n.reply_to ≡ m.reply_to
    → n.triggered_by ≡ m.triggered_by
    → n.created_at ≡ m.created_at
    → ChainKept m n
    → IsKept m n
IsKept-open m n e a b c d f g h i j = record {
  id = a;
  thread_id = b;
  author_id = c;
  author_type = d;
  role = f;
  reply_to = g;
  triggered_by = h;
  created_at = i;
  chain = j;
  frozen = subst (λ c. Frozen c m n) (sym e) tt;
}

Frozen-same : (b : Bool) (m n : Message) → SaysSame m n → Frozen b m n
Frozen-same true m n h = tt
Frozen-same false m n h = h

-- A row of any status, where what it says stays.
pub IsKept-same :
    (m n : Message)
    → SaysSame m n
    → n.id ≡ m.id
    → n.thread_id ≡ m.thread_id
    → n.author_id ≡ m.author_id
    → n.author_type ≡ m.author_type
    → n.role ≡ m.role
    → n.reply_to ≡ m.reply_to
    → n.triggered_by ≡ m.triggered_by
    → n.created_at ≡ m.created_at
    → ChainKept m n
    → IsKept m n
IsKept-same m n e a b c d f g h i j = record {
  id = a;
  thread_id = b;
  author_id = c;
  author_type = d;
  role = f;
  reply_to = g;
  triggered_by = h;
  created_at = i;
  chain = j;
  frozen = Frozen-same (is_open m.status) m n e;
}

-- The rows of a table, each at a later time, and behind them new ones with the property.
abbrev pub Grows : (Message → Type 0) → List Message → List Message → Type 0
Grows P [] ns = All P ns
Grows P (m ∷ ms) [] = ⊥
Grows P (m ∷ ms) (n ∷ ns) = IsKept m n × Grows P ms ns

-- A property that a row keeps.
abbrev pub Lasts : (Message → Type 0) → Type 0
Lasts P = (m n : Message) → IsKept m n → P m → P n

-- A handler that keeps the table so, whether it returns or throws.
pub record Keeps (P : Message → Type 0) {A : Type 0} (m : Exec Store A) : Type 0 where
  pub at : (s : Store) → Grows P s.messages (m s).1.messages

module _ (P : Message → Type 0) where
  pub Grows-refl : (ms : List Message) → Grows P ms ms
  Grows-refl [] = tt
  Grows-refl (m ∷ ms) = (IsKept-refl m, Grows-refl ms)

  pub Grows-append : (ms ns : List Message) → All P ns → Grows P ms (ms ++ ns)
  Grows-append [] ns h = h
  Grows-append (m ∷ ms) ns h = (IsKept-refl m, Grows-append ms ns h)

  pub Grows-update_rows :
      (sel : Message → Bool) (f : Message → Message) (k : ℕ) (ms : List Message)
      → ((m : Message) → sel m ≡ true → (n : ℕ) → IsKept m (record (f m) { seq = n }))
      → Grows P ms (update_rows sel f k ms)
  unfolding update_rows
  Grows-update_rows sel f k [] h = tt
  Grows-update_rows sel f k (m ∷ ms) h = elim (Bool-cases (sel m)) [
    | inl e ↦ rw e (h m e k, Grows-update_rows sel f (suc k) ms h)
    | inr e ↦ rw e (IsKept-refl m, Grows-update_rows sel f k ms h)
  ]

  module _ (lasts : Lasts P) where
    All-Grows : (ms ns : List Message) → All P ms → Grows P ms ns → All P ns
    All-Grows [] ns a h = h
    All-Grows (m ∷ ms) [] a h = elim h [ ]
    All-Grows (m ∷ ms) (n ∷ ns) a h = (lasts m n h.0 a.0, All-Grows ms ns a.1 h.1)

    pub Grows-trans : (ms ns ps : List Message) → Grows P ms ns → Grows P ns ps → Grows P ms ps
    Grows-trans [] ns ps h k = All-Grows ns ps h k
    Grows-trans (m ∷ ms) [] ps h k = elim h [ ]
    Grows-trans (m ∷ ms) (n ∷ ns) [] h k = elim k [ ]
    Grows-trans (m ∷ ms) (n ∷ ns) (p ∷ ps) h k =
        (IsKept-trans m n p h.0 k.0, Grows-trans ms ns ps h.1 k.1)

    continues :
        {A B : Type 0} (s : Store) (r : Result A) (t : Store) (f : A → Exec Store B)
        → Grows P s.messages t.messages
        → ((a : A) → Keeps P (f a))
        → Grows P s.messages (continue r f t).1.messages
    continues s (ok a) t f h k = Grows-trans s.messages t.messages _ h ((k a).at t)
    continues s (thrown e) t f h k = h

    bind-Keeps :
        {A B : Type 0} (m : Exec Store A) (f : A → Exec Store B)
        → Keeps P m
        → ((a : A) → Keeps P (f a))
        → Keeps P (m >>= f)
    unfolding ◌>>=◌
    bind-Keeps m f h k = record { at = λ s. continues s (m s).0 (m s).1 f (h.at s) k }

pub Keeps-bind :
    {P : Message → Type 0} (lasts : Lasts P) {A B : Type 0} {m : Exec Store A}
    {f : A → Exec Store B}
    → Keeps P m
    → ((a : A) → Keeps P (f a))
    → Keeps P (m >>= f)
Keeps-bind {P} lasts {m} {f} h k = bind-Keeps P lasts m f h k

-- What does not touch the messages.
module _ {P : Message → Type 0} where
  pub Keeps-pure : {A : Type 0} (a : A) → Keeps P (pure a)
  unfolding pure
  Keeps-pure a = record { at = λ s. Grows-refl P s.messages }

  pub Keeps-skip : Keeps P skip
  unfolding skip
  Keeps-skip = Keeps-pure tt

  pub Keeps-log : (entry : AuditEntry) → Keeps P (log entry)
  unfolding log
  Keeps-log entry = record { at = λ s. Grows-refl P s.messages }

  pub Keeps-draw_id : Keeps P draw_id
  unfolding draw_id
  Keeps-draw_id = record { at = λ s. Grows-refl P s.messages }

  pub Keeps-if :
      {A : Type 0} (b : Bool) {m n : Exec Store A}
      → Keeps P m
      → Keeps P n
      → Keeps P (if b then m else n)
  Keeps-if true h k = h
  Keeps-if false h k = k

  pub Keeps-given :
      {A B : Type 0} (o : Option A) {m : Exec Store B} {f : A → Exec Store B}
      → Keeps P m
      → ((a : A) → Keeps P (f a))
      → Keeps P (given o m f)
  unfolding given
  Keeps-given none h k = h
  Keeps-given (some a) h k = k a

  pub Keeps-when :
      (b : Bool) {m : Exec Store (Unit {0})} → (b ≡ true → Keeps P m) → Keeps P (when b m)
  unfolding when
  Keeps-when true h = h refl
  Keeps-when false h = Keeps-skip

  pub Keeps-attempt : {m : Exec Store (Unit {0})} → Keeps P m → Keeps P (attempt m)
  unfolding attempt
  Keeps-attempt h = record { at = h.at }

  pub Keeps-statement :
      (fails : ℕ → Bool) {A : Type 0} (f : Store → A × Store)
      → ((s : Store) → Grows P s.messages (f s).1.messages)
      → Keeps P (statement fails f)
  unfolding statement
  Keeps-statement fails f h = record {
    at = λ s. elim (Bool-cases (fails s.queries)) [
      | inl e ↦ rw e (Grows-refl P s.messages)
      | inr e ↦ rw e (h (record s { queries = suc s.queries }))
    ];
  }

  pub Keeps-select : (fails : ℕ → Bool) {A : Type 0} (f : Store → A) → Keeps P (select fails f)
  unfolding select
  Keeps-select fails f = Keeps-statement fails (λ s. (f s, s)) (λ s. Grows-refl P s.messages)

  -- A statement on another table.
  pub Keeps-elsewhere :
      (fails : ℕ → Bool) {A : Type 0} (f : Store → A × Store)
      → ((s : Store) → (f s).1.messages ≡ s.messages)
      → Keeps P (statement fails f)
  Keeps-elsewhere fails f h = Keeps-statement fails f (λ s. rw (h s) (Grows-refl P s.messages))

  pub Keeps-update_messages :
      (fails : ℕ → Bool) (sel : Message → Bool) (f : Message → Message)
      → ((m : Message) → sel m ≡ true → (n : ℕ) → IsKept m (record (f m) { seq = n }))
      → Keeps P (statement fails (update_messages sel f))
  unfolding update_messages
  Keeps-update_messages fails sel f h =
      Keeps-statement fails (update_messages sel f)
        (λ s. Grows-update_rows P sel f s.next_seq s.messages h)

  pub Keeps-insert_message :
      (fails : ℕ → Bool) (row : ℕ → ℕ → Message)
      → ((id seq : ℕ) → P (row id seq))
      → Keeps P (statement fails (insert_message row))
  unfolding insert_message
  Keeps-insert_message fails row h =
      Keeps-statement fails (insert_message row) (λ s.
        Grows-append P s.messages (row s.next_id s.next_seq ∷ []) (h s.next_id s.next_seq, tt))
