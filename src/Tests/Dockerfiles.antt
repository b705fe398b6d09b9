-- ===== src/Tests/Dockerfiles.antt =====
-- Dockerfiles with legacy heredocs: pkg/dockerfilepreprocess/heredoc.go.
use buildkit_service.Prelude.{
  ◌≡◌, ◌≢◌, refl, true, false, none, some, [], ◌∷◌, ◌++◌, Text, text, ok,
}
use buildkit_service.Dockerfile.Legacy.{parse_legacy_cat_heredoc}
use buildkit_service.Dockerfile.Transform.{transform_legacy_heredocs}
use buildkit_service.Dockerfile.Heredocs.{Libraries}
use buildkit_service.Dockerfile.Whole.{IsRewriting, transform_legacy_heredocs-IsRewriting}

-- A shell parser that finds one heredoc, whose name is EOF.
abbrev libraries : Libraries
libraries = record {
  parse_directive = λ seen line. ok none;
  json_valid = λ command. false;
  is_json_run = λ command. false;
  shell_heredocs = λ command. (text "<< EOF" ∷ [], none);
  parse_heredoc = λ token. ok (some (record { name = text "EOF"; chomp = false }));
  process_words = λ command. ok [];
}

abbrev newline : Text
newline = 10 ∷ []

abbrev legacy : Text
legacy =
    text "FROM a"
    ++ (newline
        ++ (text " run  cat > /x \\"
            ++ (newline
                ++ (text " <<-'EOF'"
                    ++ (newline
                        ++ (text "b"
                            ++ (newline ++ (text "EOF" ++ (newline ++ text "USER c")))))))))

rewritten :
    transform_legacy_heredocs libraries legacy
    ≡ ok (
      text "FROM a"
          ++ (newline
              ++ (text " COPY <<-'EOF' /x"
                  ++ (newline
                      ++ (text "b" ++ (newline ++ (text "EOF" ++ (newline ++ text "USER c"))))))),
      true,
    )
unfolding transform_legacy_heredocs
rewritten = refl

mismatched : parse_legacy_cat_heredoc (text "RUN cat <<'EOF > /x") ≢ ok none
unfolding parse_legacy_cat_heredoc
mismatched e = cc e

transform_legacy_heredocs-IsRewriting_example :
    IsRewriting libraries legacy (transform_legacy_heredocs libraries legacy)
transform_legacy_heredocs-IsRewriting_example =
    transform_legacy_heredocs-IsRewriting libraries legacy
