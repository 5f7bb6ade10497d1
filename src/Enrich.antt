-- ===== src/Enrich.antt =====
-- Roles and capabilities of types: src/java_codebase_rag/ast/ast_java.py (declarations, tables and the built-in
-- inference) and src/java_codebase_rag/graph/graph_enrich.py (overrides and the annotations of annotations). A set of
-- texts is a list without repetitions, in the order in which the set is iterated; the declarations have the fields
-- that are read.
pub mod Chain
pub mod Roles
pub mod Sets
pub mod Resolve
mod Examples
use jrag.Base.{Bool, Option, List, [], ◌∷◌, ◌++◌, map, Text, text_of}
use jrag.Base.Tables.{Table}

-- `container_capabilities` has each value of `container_capability_values` with its entry-aligned kind.
pub record AnnotationRef : Type 0 where
  pub name : Text
  pub arguments : Table Text
  pub argument_kinds : Table Text
  pub container_capabilities : List (Text × Text)

pub record FieldDecl : Type 0 where
  pub type_name : Text

pub record ParamDecl : Type 0 where
  pub type_name : Text

pub record MethodDecl : Type 0 where
  pub is_constructor : Bool
  pub parameters : List ParamDecl
  pub annotations : List AnnotationRef

pub record TypeDecl : Type 0 where
  pub name : Text
  pub kind : Text
  pub fqn : Text
  pub annotations : List AnnotationRef
  pub extends : List Text
  pub implements : List Text
  pub fields : List FieldDecl
  pub methods : List MethodDecl

unfoldable pub dto_name_suffixes : List Text
dto_name_suffixes =
    text_of "Dto"
    ∷ text_of "DTO"
    ∷ text_of "Request"
    ∷ text_of "Response"
    ∷ text_of "Payload"
    ∷ text_of "Model"
    ∷ text_of "Event"
    ∷ text_of "Message"
    ∷ text_of "Body"
    ∷ text_of "Form"
    ∷ text_of "Command"
    ∷ text_of "Query"
    ∷ text_of "Record"
    ∷ text_of "View"
    ∷ []

unfoldable pub dto_lombok_annotations : List Text
dto_lombok_annotations =
    text_of "Data"
    ∷ text_of "Value"
    ∷ text_of "Builder"
    ∷ text_of "Getter"
    ∷ text_of "Setter"
    ∷ text_of "EqualsAndHashCode"
    ∷ text_of "ToString"
    ∷ []

unfoldable pub role_annotations : Table Text
role_annotations =
    (text_of "RestController", text_of "CONTROLLER")
    ∷ (text_of "Controller", text_of "CONTROLLER")
    ∷ (text_of "Service", text_of "SERVICE")
    ∷ (text_of "Repository", text_of "REPOSITORY")
    ∷ (text_of "Component", text_of "COMPONENT")
    ∷ (text_of "Configuration", text_of "CONFIG")
    ∷ (text_of "Entity", text_of "ENTITY")
    ∷ (text_of "MappedSuperclass", text_of "ENTITY")
    ∷ (text_of "Embeddable", text_of "ENTITY")
    ∷ (text_of "FeignClient", text_of "CLIENT")
    ∷ (text_of "Mapper", text_of "MAPPER")
    ∷ []

unfoldable pub method_ann_to_capability : Table Text
method_ann_to_capability =
    (text_of "KafkaListener", text_of "MESSAGE_LISTENER")
    ∷ (text_of "RabbitListener", text_of "MESSAGE_LISTENER")
    ∷ (text_of "JmsListener", text_of "MESSAGE_LISTENER")
    ∷ (text_of "SqsListener", text_of "MESSAGE_LISTENER")
    ∷ (text_of "EventListener", text_of "MESSAGE_LISTENER")
    ∷ (text_of "StreamListener", text_of "MESSAGE_LISTENER")
    ∷ (text_of "Scheduled", text_of "SCHEDULED_TASK")
    ∷ (text_of "ExceptionHandler", text_of "EXCEPTION_HANDLER")
    ∷ []

unfoldable pub type_ann_to_capability : Table Text
type_ann_to_capability =
    (text_of "ControllerAdvice", text_of "EXCEPTION_HANDLER")
    ∷ (text_of "RestControllerAdvice", text_of "EXCEPTION_HANDLER")
    ∷ (text_of "FeignClient", text_of "HTTP_CLIENT")
    ∷ []

unfoldable pub injected_types_to_capability : Table Text
injected_types_to_capability =
    (text_of "KafkaTemplate", text_of "MESSAGE_PRODUCER")
    ∷ (text_of "RabbitTemplate", text_of "MESSAGE_PRODUCER")
    ∷ (text_of "JmsTemplate", text_of "MESSAGE_PRODUCER")
    ∷ (text_of "StreamBridge", text_of "MESSAGE_PRODUCER")
    ∷ (text_of "ApplicationEventPublisher", text_of "MESSAGE_PRODUCER")
    ∷ []

unfoldable pub supertype_to_capability : Table Text
supertype_to_capability = (text_of "Job", text_of "SCHEDULED_TASK") ∷ []

-- `d.values()`
unfoldable pub values : Table Text → List Text
values [] = []
values ((k, v) ∷ d) = v ∷ values d

unfoldable pub valid_roles : List Text
unfolding role_annotations values
valid_roles = values role_annotations ++ text_of "DTO" ∷ []

unfoldable pub valid_capabilities : List Text
unfolding method_ann_to_capability type_ann_to_capability injected_types_to_capability
    supertype_to_capability values
valid_capabilities =
    values method_ann_to_capability
    ++ values type_ann_to_capability
    ++ values injected_types_to_capability
    ++ values supertype_to_capability

abbrev pub names_of : List AnnotationRef → List Text
names_of = map (λ (a : AnnotationRef). a.name)
