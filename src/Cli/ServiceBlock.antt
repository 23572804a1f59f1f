-- ===== src/Cli/ServiceBlock.antt =====
-- packages/core/src/cli/lib/dockerServices.ts: the text of a service in the compose file.
use queueway.Base.{digits, none, String, ◌++◌, ◌∷◌, some, codes, [], Option, List, ℕ}
use queueway.Cli.Machine.{ServiceName, ServiceSpec, postgres, redis, rabbitmq}
use queueway.Cli.Docker.{container_name}

abbrev pub line_of : List ℕ → List ℕ
line_of s = s ++ 10 ∷ []

abbrev pub lines_text : List (List ℕ) → List ℕ
lines_text [] = []
lines_text (l ∷ ls) = l ++ 10 ∷ lines_text ls

-- `${x}` of what may be undefined.
abbrev pub shown : Option (List ℕ) → List ℕ
shown none = codes "undefined"
shown (some s) = s

abbrev pub shown_port : Option ℕ → List ℕ
shown_port none = codes "undefined"
shown_port (some n) = digits 5 n

abbrev pub port_line : List ℕ → String → List ℕ
port_line host inside = codes "      - \"" ++ host ++ codes inside

unfoldable pub service_block : ServiceSpec → List ℕ → List ℕ
service_block spec slug = block spec.name
  where
    container : List ℕ
    container = codes "    container_name: " ++ container_name slug spec.name

    block : ServiceName → List ℕ
    block postgres = lines_text (
        codes "  postgres:"
        ∷ codes "    image: postgres:16-alpine"
        ∷ container
        ∷ codes "    restart: unless-stopped"
        ∷ codes "    environment:"
        ∷ (codes "      POSTGRES_DB: " ++ shown spec.database)
        ∷ (codes "      POSTGRES_USER: " ++ shown spec.user)
        ∷ (codes "      POSTGRES_PASSWORD: " ++ shown spec.password)
        ∷ codes "    ports:"
        ∷ port_line (digits 5 spec.port) ":5432\""
        ∷ codes "    volumes:"
        ∷ codes "      - pgdata:/var/lib/postgresql/data"
        ∷ codes "    healthcheck:"
        ∷ (codes "      test: [\"CMD-SHELL\", \"pg_isready -U "
            ++ shown spec.user
            ++ codes " -d "
            ++ shown spec.database
            ++ codes "\"]")
        ∷ codes "      interval: 5s"
        ∷ codes "      timeout: 5s"
        ∷ codes "      retries: 10"
        ∷ [])
    block redis = lines_text (
        codes "  redis:"
        ∷ codes "    image: redis:7-alpine"
        ∷ container
        ∷ codes "    restart: unless-stopped"
        ∷ codes "    # appendonly keeps queued jobs on disk, so a Redis restart doesn't drop them."
        ∷ codes "    command: redis-server --appendonly yes"
        ∷ codes "    ports:"
        ∷ port_line (digits 5 spec.port) ":6379\""
        ∷ codes "    volumes:"
        ∷ codes "      - redisdata:/data"
        ∷ codes "    healthcheck:"
        ∷ codes "      test: [\"CMD\", \"redis-cli\", \"ping\"]"
        ∷ codes "      interval: 5s"
        ∷ codes "      timeout: 5s"
        ∷ codes "      retries: 10"
        ∷ [])
    block rabbitmq = lines_text (
        codes "  rabbitmq:"
        ∷ codes "    image: rabbitmq:3.13-management"
        ∷ container
        ∷ codes "    restart: unless-stopped"
        ∷ codes "    environment:"
        ∷ (codes "      RABBITMQ_DEFAULT_USER: " ++ shown spec.user)
        ∷ (codes "      RABBITMQ_DEFAULT_PASS: " ++ shown spec.password)
        ∷ codes "    ports:"
        ∷ port_line (digits 5 spec.port) ":5672\""
        ∷ port_line (shown_port spec.extra_port) ":15672\""
        ∷ codes "    volumes:"
        ∷ codes "      - rabbitdata:/var/lib/rabbitmq"
        ∷ codes "    healthcheck:"
        ∷ codes "      test: [\"CMD\", \"rabbitmq-diagnostics\", \"-q\", \"ping\"]"
        ∷ codes "      interval: 10s"
        ∷ codes "      timeout: 10s"
        ∷ codes "      retries: 10"
        ∷ [])
