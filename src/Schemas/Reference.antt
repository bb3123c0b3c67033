-- ===== src/Schemas/Reference.antt =====
-- References to schemas and to topics, printed and taken apart.
use argo_messaging.Base.{
  Text, text, text_eq, text_beq_refl, split, Lacks, split-append, split_of_Lacks, ◌≡◌, refl, ◌∙◌,
  ap, true, false, ◌==◌, ok, err, [], ◌∷◌, ◌++◌, arith,
}
use argo_messaging.Validation.{valid_name, Lacks-slash}
use argo_messaging.Schemas.{extract_schema, reference_of, format_schema_ref, wrong_reference}
use argo_messaging.Subscriptions.{extract_full_topic_ref}

-- `projects/<project>/<kind>/<name>`
abbrev pub reference : Text → Text → Text → Text
reference project kind name =
    text "projects" ++ (b'/' ∷ (project ++ (b'/' ∷ (kind ++ (b'/' ∷ name)))))

split-reference :
    (project kind name : Text)
    → valid_name project ≡ true
    → Lacks b'/' kind
    → valid_name name ≡ true
    → split b'/' (reference project kind name) ≡ text "projects" ∷ project ∷ kind ∷ name ∷ []
split-reference project kind name p k n =
    split-append b'/' (text "projects") _ (omega arith)
    ∙ ap (λ l. text "projects" ∷ l)
        (split-append b'/' project _ (Lacks-slash project p)
          ∙ ap (λ l. project ∷ l)
              (split-append b'/' kind _ k
                ∙ ap (λ l. kind ∷ l) (split_of_Lacks b'/' name (Lacks-slash name n))))

format-reference :
    (project name : Text) → format_schema_ref project name ≡ reference project (text "schemas") name
unfolding format_schema_ref
format-reference project name = refl

-- For valid names of a project, of a kind and of an item, `ExtractSchema` reads what `FormatSchemaRef`
-- prints, and refuses a reference to another kind; `ExtractFullTopicRef` reads a reference to any kind
-- as one to a topic.
pub references :
    (project kind name : Text)
    → valid_name project ≡ true
    → valid_name kind ≡ true
    → valid_name name ≡ true
    → (extract_schema (format_schema_ref project name) ≡ ok (project, name))
      × (kind == text "schemas" ≡ false
          → extract_schema (reference project kind name) ≡ err wrong_reference)
      × (extract_full_topic_ref (reference project kind name) ≡ ok (project, name))
unfolding extract_schema reference_of extract_full_topic_ref
references project kind name p k n =
    let own = split-reference project (text "schemas") name p (omega arith) n in
    let any = split-reference project kind name p (Lacks-slash kind k) n in
    (
      rw (format-reference project name, own) (simp text_beq_refl),
      (λ other. rw (any, other) (ground (arith, text_beq_refl (text "projects")))),
      rw any (ground (arith, text_beq_refl (text "projects"))),
    )
